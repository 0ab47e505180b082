-- ===== src/Base/Strip.antt =====
-- `str.strip()`.
use Prim.Native.Nat.{ℕ, ◌<◌}
use mathlib.Core.Path.{◌≡◌, refl, ap, sym, subst, ◌∙◌}
use mathlib.Core.Bool.{Bool, true, false, ◌&&◌, ◌||◌}
use mathlib.Core.List.{[], ◌∷◌, ◌++◌, append-nil, reverse, reverse-append, reverse-reverse}
use native.Mathlib.Omega.{arith}
use batt_lock.Base.Tests.{leb, ◌==◌, if◌then◌else◌}
use batt_lock.Base.Lists.{All, All-append}
use batt_lock.Base.Texts.{Text}

-- `str.isspace()` of one character.
unfoldable pub is_space : ℕ → Bool
is_space c =
    (leb 9 c && leb c 13)
    || (leb 28 c && leb c 32)
    || c == 0x85
    || c == 0xa0
    || c == 0x1680
    || (leb 0x2000 c && leb c 0x200a)
    || c == 0x2028
    || c == 0x2029
    || c == 0x202f
    || c == 0x205f
    || c == 0x3000

lstrip : Text → Text
lstrip [] = []
lstrip (c ∷ cs) = if is_space c then lstrip cs else c ∷ cs

unfoldable pub strip : Text → Text
unfolding lstrip
strip t = reverse (lstrip (reverse (lstrip t)))

lstrip_spaces :
    (spaces t : Text) → All (λ c. is_space c ≡ true) spaces → lstrip (spaces ++ t) ≡ lstrip t
unfolding lstrip
lstrip_spaces [] t h = refl
lstrip_spaces (c ∷ cs) t h = rw h.0 (lstrip_spaces cs t h.1)

lstrip_solid : (t : Text) → All (λ c. is_space c ≡ false) t → lstrip t ≡ t
unfolding lstrip
lstrip_solid [] h = refl
lstrip_solid (c ∷ cs) h = rw h.0

All-reverse : (P : ℕ → Type 0) (t : Text) → All P t → All P (reverse t)
All-reverse P [] h = tt
All-reverse P (c ∷ cs) h =
    subst (All P) (sym (reverse-append (c ∷ []) cs))
      (All-append P (reverse cs) (c ∷ []) (All-reverse P cs h.1) (h.0, tt))

-- Spaces behind a text without spaces are dropped, and the text is kept.
pub strip_after :
    (t spaces : Text)
    → All (λ c. is_space c ≡ false) t
    → All (λ c. is_space c ≡ true) spaces
    → strip (t ++ spaces) ≡ t
unfolding strip
strip_after [] spaces solid blank =
    let gone : lstrip spaces ≡ [] =
      ap lstrip (sym (append-nil spaces)) ∙ lstrip_spaces spaces [] blank in
    ap (λ (t : Text). reverse (lstrip (reverse t))) gone
strip_after (c ∷ cs) spaces solid blank =
    let t : Text = c ∷ cs in
    let front : lstrip (t ++ spaces) ≡ t ++ spaces = rw solid.0 in
    let back : lstrip (reverse (t ++ spaces)) ≡ reverse t =
      ap lstrip (reverse-append t spaces)
      ∙ lstrip_spaces (reverse spaces) (reverse t) (All-reverse _ spaces blank)
      ∙ lstrip_solid (reverse t) (All-reverse _ t solid) in
    ap (λ (t : Text). reverse (lstrip (reverse t))) front ∙ ap reverse back ∙ reverse-reverse t

-- Between the characters of ASCII that are printed, only the blank is a space.
pub visible_solid : (t : Text) → All (λ c. (32 < c) × (c < 127)) t → All (λ c. is_space c ≡ false) t
unfolding is_space
visible_solid [] h = tt
visible_solid (c ∷ cs) h = (ground arith, visible_solid cs h.1)
