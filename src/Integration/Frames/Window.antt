-- ===== src/Integration/Frames/Window.antt =====
-- Which counters of one attack mode count as fresh.
use batt_lock.Base.{
  zero, suc, ◌≡◌, ◌⊎◌, ◌↔◌, inl, inr, Bool-cases, true, false, if◌then◌else◌, List, [], ◌∷◌, All,
  arith,
}
use batt_lock.Base.Int.{ℤ, pos, negsuc, leb_ℤ, eq_ℤ, ◌≤ℤ◌, ◌<ℤ◌}
use batt_lock.Crypto.Counters.{ReplayProtection, new_replay, validate}
use batt_lock.Integration.Frames.{check_window}

-- The window after counters that were checked, the last of them first.
unfoldable pub window : List ℤ → ReplayProtection
window [] = new_replay
window (n ∷ before) = (check_window n (window before)).1

-- What the window knows of the counters before: it is 0 or -1 while none was positive, and else the
-- largest.
record Remembers (before : List ℤ) (last : ℤ) : Type 0 where
  from_start : negsuc 0 ≤ℤ last
  small : last ≤ℤ pos 0 → All (λ n. n ≤ℤ pos 0) before
  large : pos 0 <ℤ last → All (λ n. n ≤ℤ last) before
  reached : pos 0 <ℤ last → (below : ℤ) → All (λ n. n ≤ℤ below) before → last ≤ℤ below

All-weaker :
    (a b : ℤ) (before : List ℤ) → a ≤ℤ b → All (λ n. n ≤ℤ a) before → All (λ n. n ≤ℤ b) before
All-weaker a b [] h all = tt
All-weaker a b (n ∷ before) h all = (omega arith, All-weaker a b before h all.1)

-- The last counter as it is compared.
abbrev floor : ℤ → ℤ
floor last = if eq_ℤ last (pos 0) then negsuc 0 else last

check_window_cases :
    (n : ℤ) (r : ReplayProtection)
    → ((floor r.last_counter <ℤ n) × (check_window n r ≡ (true, record { last_counter = n })))
      ⊎ ((n ≤ℤ floor r.last_counter)
          × (check_window n r ≡ (false, record { last_counter = floor r.last_counter })))
unfolding check_window validate
check_window_cases n r = elim (Bool-cases (leb_ℤ n (floor r.last_counter))) [
  | inl stale ↦ inr (ground arith, ground arith)
  | inr fresh ↦ inl (ground arith, ground arith)
]

fresh-Remembers :
    (n last : ℤ) (before : List ℤ)
    → Remembers before last
    → floor last <ℤ n
    → Remembers (n ∷ before) n
fresh-Remembers n last before known newer = record {
  from_start = ground (arith, known.from_start);
  small = λ h. (h, known.small (ground (arith, known.from_start)));
  large = λ h. (
    omega arith,
    elim (Bool-cases (leb_ℤ last (pos 0))) [
      | inl low ↦ All-weaker (pos 0) n before (ground arith) (known.small (ground arith))
      | inr high ↦ All-weaker last n before (ground arith) (known.large (ground arith))
    ],
  );
  reached = λ h below all. all.0;
}

stale-Remembers :
    (n last : ℤ) (before : List ℤ)
    → Remembers before last
    → n ≤ℤ floor last
    → Remembers (n ∷ before) (floor last)
stale-Remembers n last before known older = record {
  from_start = ground (arith, known.from_start);
  small = λ h. (ground arith, known.small (ground arith));
  large =
      λ h. (older, All-weaker last (floor last) before (ground arith) (known.large (ground arith)));
  reached = λ h below all. let found = known.reached (ground arith) below all.1 in ground arith;
}

window-Remembers : (before : List ℤ) → Remembers before (window before).last_counter
unfolding window
window-Remembers [] = record {
  from_start = omega arith;
  small = λ h. tt;
  large = λ h. tt;
  reached = λ h below all. absurd (omega arith);
}
window-Remembers (n ∷ before) =
    let known = window-Remembers before in
    elim (check_window_cases n (window before)) [
      | inl (newer, e) ↦ rw (window, e) (fresh-Remembers n _ before known newer)
      | inr (older, e) ↦ rw (window, e) (stale-Remembers n _ before known older)
    ]

All-below :
    (last n : ℤ) (before : List ℤ)
    → last <ℤ n
    → All (λ k. k ≤ℤ last) before
    → All (λ k. k <ℤ n) before
All-below last n [] h all = tt
All-below last n (k ∷ before) h all = (omega arith, All-below last n before h all.1)

-- The int before one that is not negative.
abbrev before_it : ℤ → ℤ
before_it (pos zero) = negsuc 0
before_it (pos (suc n)) = pos n
before_it (negsuc n) = negsuc n

All-before_it :
    (n : ℤ) (before : List ℤ)
    → pos 0 ≤ℤ n
    → All (λ k. k <ℤ n) before
    → All (λ k. k ≤ℤ before_it n) before
All-before_it n [] h all = tt
All-before_it (pos zero) (k ∷ before) h all = (omega arith, All-before_it (pos zero) before h all.1)
All-before_it (pos (suc n)) (k ∷ before) h all =
    (omega arith, All-before_it (pos (suc n)) before h all.1)
All-before_it (negsuc n) (k ∷ before) h all = absurd (omega arith)

before_it-lt : (n : ℤ) → pos 0 ≤ℤ n → before_it n <ℤ n
before_it-lt (pos zero) h = omega arith
before_it-lt (pos (suc n)) h = omega arith
before_it-lt (negsuc n) h = absurd (omega arith)

-- A counter counts as fresh exactly if it is not negative and either above all the counters of its mode
-- before it, or none of those is positive: a counter 0 that comes again is no replay until a positive one
-- has come.
pub check_window_iff :
    (n : ℤ) (before : List ℤ)
    → ((check_window n (window before)).0 ≡ true)
      ↔ ((pos 0 ≤ℤ n) × (All (λ k. k <ℤ n) before ⊎ All (λ k. k ≤ℤ pos 0) before))
check_window_iff n before =
    let known = window-Remembers before in
    let last = (window before).last_counter in
    elim (check_window_cases n (window before)) [
      | inl (newer, e) ↦ (
        λ h. (
          ground (arith, known.from_start),
          elim (Bool-cases (leb_ℤ last (pos 0))) [
            | inl low ↦ inr (known.small (ground arith))
            | inr high ↦ inl (All-below last n before (ground arith) (known.large (ground arith)))
          ],
        ),
        λ h. rw e,
      )
      | inr (older, e) ↦ (
        λ h. cc (rw e at h),
        λ (h : (pos 0 ≤ℤ n) × (All (λ k. k <ℤ n) before ⊎ All (λ k. k ≤ℤ pos 0) before)). elim h.1 [
          | inl above ↦
              let reached =
                known.reached (ground (arith, known.from_start)) (before_it n)
                  (All-before_it n before h.0 above) in
              absurd (ground (arith, before_it-lt n h.0))
          | inr low ↦
              let reached = known.reached (ground (arith, known.from_start)) (pos 0) low in
              absurd (ground (arith, known.from_start))
        ],
      )
    ]
