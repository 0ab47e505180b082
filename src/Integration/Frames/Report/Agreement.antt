-- ===== src/Integration/Frames/Report/Agreement.antt =====
-- What a YES in the report stands for.
use batt_lock.Base.{
  ◌≡◌, refl, ap, sym, ◌∙◌, true, ◌&&◌, List, [], ◌∷◌, map, All, Result, ok, err, ◌>>=◌, arith,
}
use batt_lock.Base.Texts.{Text}
use batt_lock.Base.Int.{ℤ, eq_ℤ}
use batt_lock.Integration.Frames.{Verified, group}
use batt_lock.Integration.Frames.Report.{max_of, described, ReportRow, report_row}

-- What Python and the model say of a frame is the same.
abbrev pub Agrees : {F : Type 0} → Verified F → Type 0
Agrees v =
    (v.py_auth ≡ v.model_auth)
    × (v.py_replay ≡ v.model_replay)
    × (v.py_injection ≡ v.model_injection)

eq_ℤ_refl : (a : ℤ) → eq_ℤ a a ≡ true
eq_ℤ_refl a = ground arith

row_of : {a b : ReportRow} → ok a ≡ ok b → a ≡ b
row_of h = cc

joined :
    (mode : ℤ) (a r i : Result ℤ) (d : Result Text) (row : ReportRow)
    → (do
      py_auth ← a
      model_auth ← a
      py_replay ← r
      model_replay ← r
      py_injection ← i
      model_injection ← i
      description ← d
      let built : ReportRow = record {
        mode = mode;
        description = description;
        py_auth = py_auth;
        model_auth = model_auth;
        py_replay = py_replay;
        model_replay = model_replay;
        py_injection = py_injection;
        model_injection = model_injection;
        agreement =
            eq_ℤ py_auth model_auth
            && eq_ℤ py_replay model_replay
            && eq_ℤ py_injection model_injection;
      }
      ok built)
      ≡ ok row
    → row.agreement ≡ true
joined mode (err e) r i d row h = cc
joined mode (ok a) (err e) i d row h = cc
joined mode (ok a) (ok r) (err e) d row h = cc
joined mode (ok a) (ok r) (ok i) (err e) row h = cc
joined mode (ok a) (ok r) (ok i) (ok d) row h =
    let written : (eq_ℤ a a && eq_ℤ r r && eq_ℤ i i) ≡ row.agreement =
      ap (λ (r : ReportRow). r.agreement) (row_of h) in
    sym written ∙ rw (eq_ℤ_refl a, eq_ℤ_refl r, eq_ℤ_refl i) refl

module _ {F : Type 0} where
  map_agrees :
      (f g : Verified F → ℤ) (P : Verified F → Type 0)
      → ((v : Verified F) → P v → f v ≡ g v)
      → (l : List (Verified F)) → All P l
      → map f l ≡ map g l
  map_agrees f g P same [] h = refl
  map_agrees f g P same (v ∷ l) h = rw (same v h.0, map_agrees f g P same l h.1) refl

  -- Where Python and the model agree on every frame of a mode, the report says that they agree on the mode.
  pub report_row-Agrees :
      (descriptions : List Text) (outs : List (Verified F)) (mode : ℤ) (row : ReportRow)
      → All Agrees (group mode outs)
      → report_row descriptions outs mode ≡ ok row
      → row.agreement ≡ true
  unfolding report_row
  report_row-Agrees descriptions outs mode row agree h =
      let rows = group mode outs in
      let auth = map_agrees (λ v. v.py_auth) (λ v. v.model_auth) Agrees (λ v a. a.0) rows agree in
      let replay =
        map_agrees (λ v. v.py_replay) (λ v. v.model_replay) Agrees (λ v a. a.1) rows agree in
      let injection =
        map_agrees (λ v. v.py_injection) (λ v. v.model_injection) Agrees (λ v a. a.2) rows agree in
      joined mode (max_of (map (λ (v : Verified F). v.model_auth) rows))
        (max_of (map (λ (v : Verified F). v.model_replay) rows))
        (max_of (map (λ (v : Verified F). v.model_injection) rows)) (described mode descriptions)
        row (rw (auth, replay, injection) at h)
