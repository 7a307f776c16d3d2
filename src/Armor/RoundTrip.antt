-- ===== src/Armor/RoundTrip.antt =====
-- An armored signature is read back.
use text.Mathlib.TextLemmas.{nil-append}
use text.Mathlib.TextEquality.{eq_iff}
use pipek.Prelude.{
  String, ◌<>◌, Bool, true, false, ◌&&◌, not, [], ◌∷◌, ◌++◌, ◌==◌, ltb, str_eq, none, ◌≡◌, refl, ap,
  sym, ◌∙◌, arith, Bool-cases, inl, inr, ok, List, ℕ, append_assoc,
}
use pipek.Prelude.Bytes.{Bytes}
use pipek.Prelude.Text.{as_bytes, trim, lines, contains, is_whitespace}
use pipek.Prelude.Text.Laws.{
  all_codes, all_codes-append, all_codes_mono, as_bytes-append, from_utf8-as_bytes, contains-false,
  contains-append, trim_clean, lines-newline,
}
use pipek.World.{World}
use pipek.World.Laws.{emit, emit-emit, println-emit}
use pipek.Crypto.{Crypto, IsBase64, is_base64}
use pipek.Armor.{is_begin, is_end, is_body, is_armored, collect, detach_armor, print_armored}
use pipek.Armor.Markers.{begin_line, end_line, armor_rest, armor_text, IsMarker}

base64-clean : (c : ℕ) → is_base64 c ≡ true → (ltb c 128 && not (c == 10)) ≡ true
unfolding is_base64
base64-clean c h = ground arith

base64-solid : (c : ℕ) → is_base64 c ≡ true → not (is_whitespace c) ≡ true
unfolding is_base64 is_whitespace
base64-solid c h = ground arith

clean-ascii : (c : ℕ) → (ltb c 128 && not (c == 10)) ≡ true → ltb c 128 ≡ true
clean-ascii c h = ground arith

clean-line : (c : ℕ) → (ltb c 128 && not (c == 10)) ≡ true → not (c == 10) ≡ true
clean-line c h = ground arith

as_bytes-nil : as_bytes "" ≡ []
unfolding as_bytes
as_bytes-nil = refl

lines-nil : lines "" ≡ []
unfolding lines
lines-nil = refl

all_codes_both :
    (p : ℕ → Bool) (a b : String)
    → all_codes p a ≡ true
    → all_codes p b ≡ true
    → all_codes p (a <> b) ≡ true
all_codes_both p a b h k = all_codes-append p a b ∙ rw (h, k)

collect-begin :
    (line : String) (rest : List String) (capture : Bool) (b64 : String)
    → is_begin (trim line) ≡ true
    → collect (line ∷ rest) capture b64 ≡ collect rest true b64
unfolding collect
collect-begin line rest capture b64 h = rw h

collect-blank :
    (rest : List String) (capture : Bool) (b64 : String)
    → collect ("" ∷ rest) capture b64 ≡ collect rest capture b64
unfolding collect is_begin is_end is_body contains trim
collect-blank rest true b64 = refl
collect-blank rest false b64 = refl

is_begin-append : (a b : String) → is_begin a ≡ true → is_begin (a <> b) ≡ true
unfolding is_begin
is_begin-append a b h = ground (
  arith,
  contains-append "BEGIN PGP SIGNATURE" a b,
  contains-append "BEGIN PIPE-K1 SIGNATURE" a b,
  contains-append "BEGIN PIPEK1 SIGNATURE" a b,
)

module _ (b64 : String) (h : all_codes is_base64 b64 ≡ true) where
  clean : all_codes (λ c. ltb c 128 && not (c == 10)) b64 ≡ true
  clean = all_codes_mono is_base64 _ base64-clean b64 h

  not-begin : is_begin b64 ≡ false
  unfolding is_begin
  not-begin =
      rw
        (
          contains-false is_base64 b64 "BEGIN PGP SIGNATURE" h (unfold all_codes is_base64 in refl),
          contains-false is_base64 b64 "BEGIN PIPE-K1 SIGNATURE" h
              (unfold all_codes is_base64 in refl),
          contains-false is_base64 b64 "BEGIN PIPEK1 SIGNATURE" h
              (unfold all_codes is_base64 in refl),
        )
        refl

  not-end : is_end b64 ≡ false
  unfolding is_end
  not-end =
      rw
        (
          contains-false is_base64 b64 "END PGP SIGNATURE" h (unfold all_codes is_base64 in refl),
          contains-false is_base64 b64 "END PIPE-K1 SIGNATURE" h
              (unfold all_codes is_base64 in refl),
          contains-false is_base64 b64 "END PIPEK1 SIGNATURE" h
              (unfold all_codes is_base64 in refl),
        )
        refl

  not-colon : contains ":" b64 ≡ false
  not-colon = contains-false is_base64 b64 ":" h (unfold all_codes is_base64 in refl)

  -- The body is what the loop collects.
  collect-body :
      (end : String)
      → is_begin (trim end) ≡ false
      → is_end (trim end) ≡ true
      → collect (b64 ∷ end ∷ []) true "" ≡ b64
  unfolding collect is_body
  collect-body end e1 e2 =
      rw
        (
          trim_clean b64 (all_codes_mono is_base64 _ base64-solid b64 h),
          not-begin,
          not-end,
          not-colon,
          e1,
          e2,
        )
        (elim (Bool-cases (str_eq b64 "")) [
          | inl e ↦ rw e (sym ((eq_iff b64 "").0 e))
          | inr e ↦ rw e (nil-append b64)
        ])

  module _ (name : String) (m : IsMarker name) where
    lines-armor : lines (armor_text name b64) ≡ begin_line name ∷ "" ∷ b64 ∷ end_line name ∷ []
    lines-armor =
        lines-newline (begin_line name) _ (all_codes_mono _ _ clean-line _ m.begin_clean)
        ∙ ap (λ t. begin_line name ∷ t)
            (lines-newline "" _ (unfold all_codes in refl)
              ∙ ap (λ t. "" ∷ t)
                  (lines-newline b64 _ (all_codes_mono _ _ clean-line b64 clean)
                    ∙ ap (λ t. b64 ∷ t)
                        (lines-newline (end_line name) ""
                            (all_codes_mono _ _ clean-line _ m.end_clean)
                          ∙ ap (λ t. end_line name ∷ t) lines-nil)))

    collect-armor : collect (lines (armor_text name b64)) false "" ≡ b64
    collect-armor = rw lines-armor (
        collect-begin (begin_line name) ("" ∷ b64 ∷ end_line name ∷ []) false "" m.begins
        ∙ collect-blank (b64 ∷ end_line name ∷ []) true ""
        ∙ collect-body (end_line name) m.ends m.stops)

    ascii-armor : all_codes (λ c. ltb c 128) (armor_text name b64) ≡ true
    ascii-armor =
        let ascii : String → Bool = all_codes (λ c. ltb c 128) in
        let newline : ascii "\n" ≡ true = unfold all_codes in refl in
        let empty : ascii "" ≡ true = unfold all_codes in refl in
        all_codes_both _ (begin_line name) _ (all_codes_mono _ _ clean-ascii _ m.begin_clean) (
          all_codes_both _ "\n" _ newline (
            all_codes_both _ "" _ empty (
              all_codes_both _ "\n" _ newline (
                all_codes_both _ b64 _ (all_codes_mono _ _ clean-ascii b64 clean) (
                  all_codes_both _ "\n" _ newline (
                    all_codes_both _ (end_line name) _
                      (all_codes_mono _ _ clean-ascii _ m.end_clean)
                      (all_codes_both _ "\n" "" newline empty)))))))

    is_armored-armor : is_armored (armor_text name b64) ≡ true
    unfolding is_armored
    is_armored-armor =
        rw (contains-append "SIGNATURE" (begin_line name) (armor_rest name b64) m.signature)
          (is_begin-append (begin_line name) (armor_rest name b64) m.begins_plain)

armor_bytes :
    (name b64 : String)
    → ((as_bytes (begin_line name <> "\n") ++ as_bytes ("" <> "\n")) ++ as_bytes (b64 <> "\n"))
        ++ as_bytes (end_line name <> "\n")
      ≡ as_bytes (armor_text name b64)
unfolding as_bytes
armor_bytes name b64 = simp (as_bytes-append, append_assoc, as_bytes-nil)

module _ (C : Crypto) (B : IsBase64 C) where
  -- Taking the armor off the text of a payload gives the payload back.
  pub detach_armor-armor_text :
      (name : String) (payload : Bytes)
      → IsMarker name
      → detach_armor C (as_bytes (armor_text name (C.base64_encode payload))) ≡ ok payload
  unfolding detach_armor
  detach_armor-armor_text name payload m =
      let b64 : String = C.base64_encode payload in
      let h = B.alphabet payload in
      rw
        (
          from_utf8-as_bytes (armor_text name b64) (ascii-armor b64 h name m),
          is_armored-armor b64 h name m,
          collect-armor b64 h name m,
          B.decode_encode payload,
        )
        refl

  -- What is printed for a payload is its armored text.
  pub print_armored-emit :
      {E : Type 0} (name : String) (payload : Bytes) (w : World)
      → w.stdout.room ≡ none
      → print_armored C {E = E} name payload w
        ≡ (ok tt, emit (as_bytes (armor_text name (C.base64_encode payload))) w)
  unfolding print_armored
  print_armored-emit name payload w room =
      let b64 : String = C.base64_encode payload in
      let a : Bytes = as_bytes (begin_line name <> "\n") in
      let b : Bytes = as_bytes ("" <> "\n") in
      let c : Bytes = as_bytes (b64 <> "\n") in
      let d : Bytes = as_bytes (end_line name <> "\n") in
      let whole : ((a ++ b) ++ c) ++ d ≡ as_bytes (armor_text name b64) = armor_bytes name b64 in
      rw
        (
          println-emit (begin_line name) w room,
          println-emit "" (emit a w) room,
          println-emit b64 (emit b (emit a w)) room,
          println-emit (end_line name) (emit c (emit b (emit a w))) room,
        )
        (ap (λ u. (ok tt, emit d (emit c u))) (emit-emit a b w)
          ∙ ap (λ u. (ok tt, emit d u)) (emit-emit (a ++ b) c w)
          ∙ ap (λ u. (ok tt, u)) (emit-emit ((a ++ b) ++ c) d w)
          ∙ ap (λ t. (ok tt, emit t w)) whole)
