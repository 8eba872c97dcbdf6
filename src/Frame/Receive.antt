-- ===== src/Frame/Receive.antt =====
-- However a frame is cut into pieces, the two functions find the text in it.
use spsc.Prelude.{
  c_string-nonzero, ℕ, ◌+◌, ◌<◌, ◌≡◌, ◌≢◌, refl, ap, sym, ◌∙◌, arith, false, none, some, List, [],
  ◌∷◌, ◌++◌, ◌==◌, All, length, length-append, All-append, All-left, All-right, All-map, Option,
  Option-cases, inl, inr, drop, set, set-append, c_string,
}
use mathlib.Core.Path.{subst}
use spsc.Frame.{
  after_one, start_marker, end_marker, done_trans, frame, strstr, unframed, is_done, starts_with,
}
use spsc.Frame.Strstr.{strstr_within, strstr-append, strstr_skip, strstr-none}

-- The characters of a text that the programs send: neither a zero, nor '+', nor '<', nor below.
abbrev pub IsPlain : ℕ → Type 0
IsPlain c = (43 < c) × (c ≢ 60)

c_string-zero : (s rest : List ℕ) → All (λ c. c ≢ 0) s → c_string (s ++ 0 ∷ rest) ≡ s
unfolding c_string
c_string-zero [] rest h = refl
c_string-zero (c ∷ s) rest h =
    let other : (c == 0) ≡ false = (let ne : c ≢ 0 = h.0 in ground arith) in
    rw other (ap (◌∷◌ c) (c_string-zero s rest (h.1)))

pub length-frame : (text : List ℕ) → length (frame text) ≡ length text + 20
length-frame text = omega (arith, length-append text end_marker)

strstr-start : (text : List ℕ) → strstr start_marker (frame text) ≡ some 0
unfolding strstr starts_with
strstr-start text = refl

-- What a text has to be like: in its frame the end marker stands behind the text and nowhere before,
-- and there is neither a zero nor "+DONE+".
pub record IsFramed (text : List ℕ) : Type 0 where
  pub end_at : strstr end_marker (frame text) ≡ some (10 + length text)
  pub nonzero : All (λ c. c ≢ 0) (frame text)
  pub not_done : strstr done_trans (frame text) ≡ none

-- what stands above a number is not that number
pub All-ne : (n : ℕ) (xs : List ℕ) → All (λ c. n < c) xs → All (λ c. c ≢ n) xs
All-ne n xs = All-map (λ c. n < c) (λ c. c ≢ n) xs (λ c h e. (let f : ⊥ = omega (arith, h, e) in f))

module _ (text : List ℕ) (plain : All IsPlain text) where
  not_open : All (λ c. c ≢ 60) text
  not_open = All-map IsPlain (λ c. c ≢ 60) text (λ c h. h.1) plain

  -- the end marker stands behind the text and nowhere before
  strstr-end : strstr end_marker (frame text) ≡ some (10 + length text)
  strstr-end =
      let nine : List ℕ = drop 1 start_marker in
      let rest : List ℕ = drop 1 end_marker in
      let here : strstr end_marker end_marker ≡ some 0 = unfold strstr starts_with in refl in
      let behind_text = strstr_skip 60 rest text end_marker not_open here in
      let later =
        strstr_skip 60 rest nine (text ++ end_marker) (All-ne 60 nine (omega arith)) behind_text in
      unfold strstr starts_with in ap after_one later ∙ ap some (omega arith)

  above : All (λ c. 43 < c) (frame text)
  above =
      All-append (λ c. 43 < c) start_marker (text ++ end_marker) (omega arith)
        (All-append (λ c. 43 < c) text end_marker
          (All-map IsPlain (λ c. 43 < c) text (λ c h. h.0) plain) (omega arith))

  pub plain-IsFramed : IsFramed text
  plain-IsFramed = record {
    end_at = strstr-end;
    nonzero =
        All-ne 0 (frame text)
          (All-map (λ c. 43 < c) (λ c. 0 < c) (frame text) (λ c h. omega (arith, h)) above);
    not_done = strstr-none 43 (drop 1 done_trans) (frame text) (All-ne 43 (frame text) above);
  }

-- from the whole of a frame, its text
pub unframed-frame : (text : List ℕ) → IsFramed text → unframed (frame text) ≡ some text
unfolding unframed
unframed-frame text is =
    let opened : List ℕ = start_marker ++ text in
    let cut : set (frame text) (10 + length text) 0 ≡ opened ++ 0 ∷ drop 1 end_marker =
      set-append opened (drop 1 end_marker) 60 (10 + length text) 0 (omega arith) in
    let inside : All (λ c. c ≢ 0) text =
      All-left (λ c. c ≢ 0) text end_marker
        (All-right (λ c. c ≢ 0) start_marker (text ++ end_marker) is.nonzero) in
    rw (strstr-start text, is.end_at)
      (ap (λ l. some (c_string (drop 10 l))) cut
        ∙ ap some (c_string-zero text (drop 1 end_marker) inside))

place : Option ℕ → ℕ
place none = 0
place (some i) = i

-- a part of a frame that the rest still follows has no end marker, and no "+DONE+"
module _ (text : List ℕ) (is : IsFramed text) (s rest : List ℕ)
    (whole : s ++ rest ≡ frame text) where
  strstr-end_none : 0 < length rest → strstr end_marker s ≡ none
  unfolding place
  strstr-end_none more = elim (Option-cases (strstr end_marker s)) [
    | inl e ↦ e
    | inr (i, e) ↦
        let found : strstr end_marker (frame text) ≡ some i =
          ap (strstr end_marker) (sym whole) ∙ strstr-append end_marker s rest e in
        let at : some i ≡ some (10 + length text) = sym found ∙ is.end_at in
        absurd (
          omega (
            arith,
            strstr_within end_marker s e,
            ap place at,
            length-append s rest,
            ap length whole,
            length-frame text,
            more,
          ))
  ]

  pub is_done-part : is_done s ≡ false
  unfolding is_done
  is_done-part = elim (Option-cases (strstr done_trans s)) [
    | inl e ↦ rw e refl
    | inr (i, e) ↦
        let found : strstr done_trans (frame text) ≡ some i =
          ap (strstr done_trans) (sym whole) ∙ strstr-append done_trans s rest e in
        absurd (cc (sym found ∙ is.not_done))
  ]

  pub c_string-part : c_string s ≡ s
  c_string-part =
      c_string-nonzero s
        (All-left (λ c. c ≢ 0) s rest (subst (All (λ c. c ≢ 0)) (sym whole) is.nonzero))

  pub unframed-part : 0 < length rest → unframed s ≡ none
  unfolding unframed
  unframed-part more = elim (Option-cases (strstr start_marker s)) [
    | inl e ↦ rw e refl
    | inr (i, e) ↦ rw (e, strstr-end_none more) refl
  ]
