-- ===== src/Can/Collector/Emission.antt =====
-- When the collector emits a status, and which.
use batt_lock.Base.{
  ℕ, ◌≡◌, ◌⊎◌, ◌∙◌, refl, List, [], ◌∷◌, ◌++◌, All, length, replicate, Option, none, some, Result,
  ok, arith, inl, inr,
}
use batt_lock.Base.Float.{FloatOps}
use batt_lock.Can.Message.{CanMessage, battery_status_a, battery_status_b, battery_status_c}
use batt_lock.Can.Status.{BatteryStatus, status_from_frames}
use batt_lock.Can.Collector.{StatusCollector, new_collector, complete, feed, feed_all}
use batt_lock.Can.Collector.Rounds.{
  IsValid, IsSlot, IsOther, Fed, feed-Fed, put_b, put_c, put_b-IsValid, put_c-IsValid,
}

module _ {F : Type 0} (ops : FloatOps F) where
  complete_emits :
      (s s' : StatusCollector) (oa ob oc : Option CanMessage) (st : BatteryStatus F)
      → complete ops s oa ob oc ≡ (ok (some st), s')
      → (a : CanMessage) × (b : CanMessage) × (c : CanMessage) × (oa ≡ some a)
        × (ob ≡ some b)
        × (oc ≡ some c)
        × (status_from_frames ops a b c ≡ ok st)
        × (s' ≡ new_collector)
  unfolding complete
  complete_emits s s' none ob oc st e = cc
  complete_emits s s' (some a) none oc st e = cc
  complete_emits s s' (some a) (some b) none st e = cc
  complete_emits s s' (some a) (some b) (some c) st e =
      (a, b, c, refl, refl, refl, ground arith, ground arith)

  -- The frames behind an emitted status.
  pub record Emitted (m : CanMessage) (s s' : StatusCollector) (st : BatteryStatus F) : Type 0 where
    pub a : CanMessage
    pub b : CanMessage
    pub c : CanMessage
    pub ids :
        (a.arbitration_id ≡ battery_status_a)
        × (b.arbitration_id ≡ battery_status_b)
        × (c.arbitration_id ≡ battery_status_c)
    pub opened : s.a ≡ some a
    pub last : ((b ≡ m) × (s.c ≡ some c)) ⊎ ((c ≡ m) × (s.b ≡ some b))
    pub decoded : status_from_frames ops a b c ≡ ok st
    pub emptied : s' ≡ new_collector

  slot_id :
      (id : ℕ) (o : Option CanMessage) (m : CanMessage)
      → IsSlot id o
      → o ≡ some m
      → m.arbitration_id ≡ id
  slot_id id none m h e = cc
  slot_id id (some n) m h e = cc

  put_b_slots :
      (m a b c : CanMessage) (s : StatusCollector)
      → (put_b m s).a ≡ some a
      → (put_b m s).b ≡ some b
      → (put_b m s).c ≡ some c
      → (s.a ≡ some a) × (b ≡ m) × (s.c ≡ some c)
  unfolding put_b
  put_b_slots m a b c s ea eb ec = (ground arith, ground arith, ground arith)

  put_c_slots :
      (m a b c : CanMessage) (s : StatusCollector)
      → (put_c m s).a ≡ some a
      → (put_c m s).b ≡ some b
      → (put_c m s).c ≡ some c
      → (s.a ≡ some a) × (c ≡ m) × (s.b ≡ some b)
  unfolding put_c
  put_c_slots m a b c s ea eb ec = (ground arith, ground arith, ground arith)

  -- A status that is emitted was decoded from one frame A, one frame B and one frame C: the A that
  -- opened the round, and of B and C the one that was just fed and the other that was waiting.
  -- The buffer is empty afterwards.
  pub feed_emits :
      (m : CanMessage) (s s' : StatusCollector) (st : BatteryStatus F)
      → IsValid s
      → feed ops m s ≡ (ok (some st), s')
      → Emitted m s s' st
  feed_emits m s s' st v e = go (feed-Fed ops m s)
    where
      go : Fed ops m s → Emitted m s s' st
      go (Fed.starts _ f) = cc
      go (Fed.brings_b i f) =
          let w = put_b-IsValid m s i v in
          let (a, b, c, ea, eb, ec, es, en) = complete_emits (put_b m s) s' _ _ _ st (rw f at e) in
          let (oa, ob, oc) = put_b_slots m a b c s ea eb ec in
          record {
            a = a;
            b = b;
            c = c;
            ids = (slot_id _ _ a w.slot_a ea, slot_id _ _ b w.slot_b eb, slot_id _ _ c w.slot_c ec);
            opened = oa;
            last = inl (ob, oc);
            decoded = es;
            emptied = en;
          }
      go (Fed.brings_c i f) =
          let w = put_c-IsValid m s i v in
          let (a, b, c, ea, eb, ec, es, en) = complete_emits (put_c m s) s' _ _ _ st (rw f at e) in
          let (oa, oc, ob) = put_c_slots m a b c s ea eb ec in
          record {
            a = a;
            b = b;
            c = c;
            ids = (slot_id _ _ a w.slot_a ea, slot_id _ _ b w.slot_b eb, slot_id _ _ c w.slot_c ec);
            opened = oa;
            last = inr (oc, ob);
            decoded = es;
            emptied = en;
          }
      go (Fed.passes _ f) = cc

  feed_other : (m : CanMessage) (s : StatusCollector) → IsOther m → feed ops m s ≡ (ok none, s)
  unfolding feed
  feed_other m s o = ground arith

  feed_all_other :
      (l : List CanMessage) (s : StatusCollector)
      → All IsOther l
      → feed_all ops l s ≡ (replicate (length l) (ok none), s)
  unfolding feed_all
  feed_all_other [] s h = refl
  feed_all_other (m ∷ l) s h = rw (feed_other m s h.0, feed_all_other l s h.1)

  feed_all-append :
      (l r : List CanMessage) (s : StatusCollector)
      → feed_all ops (l ++ r) s ≡ (
        (feed_all ops l s).0 ++ (feed_all ops r (feed_all ops l s).1).0,
        (feed_all ops r (feed_all ops l s).1).1,
      )
  unfolding feed_all
  feed_all-append [] r s = refl
  feed_all-append (m ∷ l) r s = rw (feed_all-append l r (feed ops m s).1)

  abbrev pub nones : List CanMessage → List (Result (Option (BatteryStatus F)))
  nones l = replicate (length l) (ok none)

  -- Frames with these identifiers, from any state.
  feed_a :
      (a : CanMessage) (s : StatusCollector)
      → a.arbitration_id ≡ battery_status_a
      → feed ops a s ≡ (ok none, record { a = some a; b = none; c = none })
  unfolding feed
  feed_a a s e = ground arith

  feed_b :
      (a b : CanMessage) (oc : Option CanMessage)
      → b.arbitration_id ≡ battery_status_b
      → feed ops b (record { a = some a; b = none; c = oc })
        ≡ complete ops (record { a = some a; b = some b; c = oc }) (some a) (some b) oc
  unfolding feed
  feed_b a b oc e = ground arith

  feed_c :
      (a c : CanMessage) (ob : Option CanMessage)
      → c.arbitration_id ≡ battery_status_c
      → feed ops c (record { a = some a; b = ob; c = none })
        ≡ complete ops (record { a = some a; b = ob; c = some c }) (some a) ob (some c)
  unfolding feed
  feed_c a c ob e = ground arith

  complete_full :
      (s : StatusCollector) (a b c : CanMessage) (st : BatteryStatus F)
      → status_from_frames ops a b c ≡ ok st
      → complete ops s (some a) (some b) (some c) ≡ (ok (some st), new_collector)
  unfolding complete
  complete_full s a b c st e = ground arith

  complete_partial :
      (s : StatusCollector) (a : CanMessage) (o : Option CanMessage)
      → (complete ops s (some a) o none ≡ (ok none, s))
        × (complete ops s (some a) none o ≡ (ok none, s))
  unfolding complete
  complete_partial s a none = (refl, refl)
  complete_partial s a (some b) = (refl, refl)

  -- Other frames, then one frame.
  feed_all_step :
      (u : List CanMessage) (m : CanMessage) (r : List CanMessage) (s s' : StatusCollector)
      (o : Result (Option (BatteryStatus F)))
      → All IsOther u
      → feed ops m s ≡ (o, s')
      → feed_all ops (u ++ (m ∷ r)) s
        ≡ (nones u ++ (o ∷ (feed_all ops r s').0), (feed_all ops r s').1)
  unfolding feed_all
  feed_all_step u m r s s' o h e = rw (feed_all-append u (m ∷ r) s, feed_all_other u s h, e)

  pub round_abc :
      (a b c : CanMessage) (u v : List CanMessage) (s : StatusCollector) (st : BatteryStatus F)
      → a.arbitration_id ≡ battery_status_a
      → b.arbitration_id ≡ battery_status_b
      → c.arbitration_id ≡ battery_status_c
      → All IsOther u
      → All IsOther v
      → status_from_frames ops a b c ≡ ok st
      → feed_all ops (a ∷ (u ++ (b ∷ (v ++ (c ∷ []))))) s
        ≡ (ok none ∷ (nones u ++ (ok none ∷ (nones v ++ (ok (some st) ∷ [])))), new_collector)
  unfolding feed_all
  round_abc a b c u v s st ea eb ec hu hv e = rw (
    feed_all_step [] a (u ++ (b ∷ (v ++ (c ∷ [])))) s (record { a = some a; b = none; c = none })
        (ok none) tt (feed_a a s ea),
    feed_all_step u b (v ++ (c ∷ [])) (record { a = some a; b = none; c = none })
        (record { a = some a; b = some b; c = none }) (ok none) hu
        (feed_b a b none eb
          ∙ (complete_partial (record { a = some a; b = some b; c = none }) a (some b)).0),
    feed_all_step v c [] (record { a = some a; b = some b; c = none }) new_collector (ok (some st))
        hv
        (feed_c a c (some b) ec
          ∙ complete_full (record { a = some a; b = some b; c = some c }) a b c st e),
  )

  pub round_acb :
      (a b c : CanMessage) (u v : List CanMessage) (s : StatusCollector) (st : BatteryStatus F)
      → a.arbitration_id ≡ battery_status_a
      → b.arbitration_id ≡ battery_status_b
      → c.arbitration_id ≡ battery_status_c
      → All IsOther u
      → All IsOther v
      → status_from_frames ops a b c ≡ ok st
      → feed_all ops (a ∷ (u ++ (c ∷ (v ++ (b ∷ []))))) s
        ≡ (ok none ∷ (nones u ++ (ok none ∷ (nones v ++ (ok (some st) ∷ [])))), new_collector)
  unfolding feed_all
  round_acb a b c u v s st ea eb ec hu hv e = rw (
    feed_all_step [] a (u ++ (c ∷ (v ++ (b ∷ [])))) s (record { a = some a; b = none; c = none })
        (ok none) tt (feed_a a s ea),
    feed_all_step u c (v ++ (b ∷ [])) (record { a = some a; b = none; c = none })
        (record { a = some a; b = none; c = some c }) (ok none) hu
        (feed_c a c none ec
          ∙ (complete_partial (record { a = some a; b = none; c = some c }) a (some c)).1),
    feed_all_step v b [] (record { a = some a; b = none; c = some c }) new_collector (ok (some st))
        hv
        (feed_b a b (some c) eb
          ∙ complete_full (record { a = some a; b = some b; c = some c }) a b c st e),
  )
