-- ===== src/Base/Texts.antt =====
-- A Python str, as its code points, and `==` on it.
use Prim.Native.Nat.{ℕ}
use Prim.Native.Char.{code}
use Prim.Native.String.{String}
use mathlib.Core.Path.{◌≡◌, subst}
use mathlib.Core.Bool.{true}
use mathlib.Core.Logic.{◌↔◌}
use mathlib.Core.List.{List, [], ◌∷◌}
use batt_lock.Base.Lists.{list_eq, list_eq→eq, list_eq_refl}

abbrev pub Text : Type 0
Text = List ℕ

-- A literal as a str.
abbrev pub codes : String → Text
codes String.[] = []
codes (String.◌∷◌ c s) = code c ∷ codes s

pub list_eq_iff : (a b : List ℕ) → (list_eq a b ≡ true) ↔ (a ≡ b)
list_eq_iff a b = (list_eq→eq a b, λ e. subst (λ c. list_eq a c ≡ true) e (list_eq_refl a))
