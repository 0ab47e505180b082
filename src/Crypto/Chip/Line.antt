-- ===== src/Crypto/Chip/Line.antt =====
-- A line to the chip and its answer.
use batt_lock.Base.{◌≡◌, ◌<◌, refl, ap, true, [], ◌∷◌, ◌++◌, ◌∙◌, All, All-append, some, ok, arith}
use batt_lock.Base.Texts.{Text}
use batt_lock.Base.Utf8.{encode}
use batt_lock.Base.Utf8.Replace.{decode_replace, decode_replace_ascii, encode_ascii}
use batt_lock.Base.Strip.{strip, strip_after, is_space, visible_solid}
use batt_lock.Crypto.Chip.{SerialOps, Atecc608, query, query_open, read_answer}

abbrev pub IsVisible : Text → Type 0
IsVisible t = All (λ c. (32 < c) × (c < 127)) t

abbrev pub IsAscii : Text → Type 0
IsAscii t = All (λ c. c < 128) t

visible-IsAscii : (t : Text) → IsVisible t → IsAscii t
visible-IsAscii [] h = tt
visible-IsAscii (c ∷ cs) h = (omega arith, visible-IsAscii cs h.1)

module _ {S : Type 0} (serial : SerialOps S) where
  -- The line `line` is answered by `answer`, without its end.
  pub record Answers (s : S) (line answer : Text) : Type 0 where
    pub sent : S
    pub later : S
    pub ending : Text
    pub written : serial.write (line ++ 10 ∷ []) s ≡ ok sent
    pub response : serial.readline sent ≡ ok (answer ++ ending, later)
    pub ascii : IsAscii line
    pub visible : IsVisible answer
    pub ending_ascii : IsAscii ending
    pub ending_spaces : All (λ c. is_space c ≡ true) ending

  pub query_answered :
      (chip : Atecc608 S) (s : S) (line answer : Text) (a : Answers s line answer)
      → chip.ser ≡ some s
      → query serial line chip ≡ (ok answer, record chip { ser = some a.later })
  unfolding query query_open read_answer
  query_answered chip s line answer a open_here =
      let whole : encode (line ++ 10 ∷ []) ≡ ok (line ++ 10 ∷ []) =
        encode_ascii (line ++ 10 ∷ []) (All-append _ line (10 ∷ []) a.ascii (omega arith, tt)) in
      let plain : strip (decode_replace (answer ++ a.ending)) ≡ answer =
        ap strip (
          decode_replace_ascii (answer ++ a.ending)
            (All-append _ answer a.ending (visible-IsAscii answer a.visible) a.ending_ascii))
        ∙ strip_after answer a.ending (visible_solid answer a.visible) a.ending_spaces in
      rw (query, open_here, query_open, whole, a.written, read_answer, a.response, plain) refl
