-- ===== src/Tests/Json.antt =====
-- A writing of dicts of strings in ASCII, three characters for each code point, and the laws of
-- `Base.Json` for it.
use batt_lock.Base.{
  ℕ, zero, suc, ◌+◌, ◌*◌, ◌/◌, ◌%◌, ◌^◌, ◌<◌, ◌≡◌, refl, ap, ◌∙◌, sym, List, [], ◌∷◌, ◌++◌,
  append_assoc, append-nil, All, ok, arith,
}
use batt_lock.Base.Texts.{Text}
use batt_lock.Base.Utf8.{IsScalar}
use batt_lock.Base.Json.{Value, text, other, dict, JsonOps, IsJson, IsText}

-- A text with every code point moved up by one, and 0 behind it.
marked : Text → List ℕ → List ℕ
marked [] rest = 0 ∷ rest
marked (c ∷ cs) rest = suc c ∷ marked cs rest

abbrev text_of : Value → Text
text_of (text t) = t
text_of other = []

pub serial : List (Text × Value) → List ℕ
serial [] = []
serial ((k, v) ∷ d) = marked k (marked (text_of v) (serial d))

pub data Place : Type 0 where
  in_key : Text → Place
  in_value : Text → Text → Place

pub parse : Place → List ℕ → List (Text × Value)
parse p [] = []
parse (in_key k) (zero ∷ ns) = parse (in_value k []) ns
parse (in_key k) (suc c ∷ ns) = parse (in_key (k ++ c ∷ [])) ns
parse (in_value k v) (zero ∷ ns) = (k, text v) ∷ parse (in_key []) ns
parse (in_value k v) (suc c ∷ ns) = parse (in_value k (v ++ c ∷ [])) ns

parse_key :
    (k t : Text) (ns : List ℕ) → parse (in_key k) (marked t ns) ≡ parse (in_value (k ++ t) []) ns
unfolding parse marked
parse_key k [] ns = ap (λ (u : Text). parse (in_value u []) ns) (sym (append-nil k))
parse_key k (c ∷ t) ns =
    parse_key (k ++ c ∷ []) t ns
    ∙ ap (λ (u : Text). parse (in_value u []) ns) (append_assoc k (c ∷ []) t)

parse_value :
    (k v t : Text) (ns : List ℕ)
    → parse (in_value k v) (marked t ns) ≡ (k, text (v ++ t)) ∷ parse (in_key []) ns
unfolding parse marked
parse_value k v [] ns = ap (λ (u : Text). (k, text u) ∷ parse (in_key []) ns) (sym (append-nil v))
parse_value k v (c ∷ t) ns =
    parse_value k (v ++ c ∷ []) t ns
    ∙ ap (λ (u : Text). (k, text u) ∷ parse (in_key []) ns) (append_assoc v (c ∷ []) t)

abbrev IsWritable : List (Text × Value) → Type 0
IsWritable = All (λ (p : Text × Value). All IsScalar p.0 × IsText p.1)

parse-serial : (d : List (Text × Value)) → IsWritable d → parse (in_key []) (serial d) ≡ d
unfolding serial
parse-serial [] h = unfold parse in refl
parse-serial ((k, text t) ∷ d) h =
    rw (parse_key [] k (marked t (serial d)), parse_value k [] t (serial d), parse-serial d h.1)
parse-serial ((k, other) ∷ d) h = absurd h.0.1

-- Three characters for a number below 2 ^ 21.
pub expand : List ℕ → Text
expand [] = []
expand (n ∷ ns) = n / 16384 % 128 ∷ n / 128 % 128 ∷ n % 128 ∷ expand ns

pub collapse : Text → List ℕ
collapse (a ∷ b ∷ c ∷ t) = (a * 16384 + b * 128 + c) ∷ collapse t
collapse _ = []

collapse-expand : (ns : List ℕ) → All (λ n. n < 2 ^ 21) ns → collapse (expand ns) ≡ ns
unfolding collapse expand
collapse-expand [] h = refl
collapse-expand (n ∷ ns) h =
    let whole : n / 16384 % 128 * 16384 + n / 128 % 128 * 128 + n % 128 ≡ n = omega (arith, h.0) in
    rw (whole, collapse-expand ns h.1)

expand_ascii : (ns : List ℕ) → All (λ c. c < 128) (expand ns)
unfolding expand
expand_ascii [] = tt
expand_ascii (n ∷ ns) = (omega arith, (omega arith, (omega arith, expand_ascii ns)))

marked_small :
    (t : Text) (ns : List ℕ)
    → All IsScalar t
    → All (λ n. n < 2 ^ 21) ns
    → All (λ n. n < 2 ^ 21) (marked t ns)
unfolding marked
marked_small [] ns h g = (omega arith, g)
marked_small (c ∷ t) ns h g = (omega (arith, h.0.0), marked_small t ns h.1 g)

serial_small : (d : List (Text × Value)) → IsWritable d → All (λ n. n < 2 ^ 21) (serial d)
unfolding serial
serial_small [] h = tt
serial_small ((k, text t) ∷ d) h =
    marked_small k (marked t (serial d)) h.0.0
      (marked_small t (serial d) h.0.1 (serial_small d h.1))
serial_small ((k, other) ∷ d) h = absurd h.0.1

abbrev pub triples : JsonOps
triples = record {
  dumps = λ d. expand (serial d);
  loads = λ t. ok (dict (parse (in_key []) (collapse t)));
}

pub triples-IsJson : IsJson triples
triples-IsJson = record {
  dumps_ascii = λ d. expand_ascii (serial d);
  loads-dumps = λ d keyed h. rw (collapse-expand (serial d) (serial_small d h), parse-serial d h);
}
