-- ===== src/Armor/Markers.antt =====
-- The text that is printed for a signature, and its marker lines.
use pipek.Prelude.{String, ◌<>◌, true, false, ◌&&◌, not, ◌==◌, ltb, ◌≡◌, refl}
use pipek.Prelude.Text.{trim, contains}
use pipek.Prelude.Text.Laws.{all_codes}
use pipek.Armor.{is_begin, is_end}

abbrev pub begin_line : String → String
begin_line name = "-----BEGIN " <> (name <> " SIGNATURE-----")

abbrev pub end_line : String → String
end_line name = "-----END " <> (name <> " SIGNATURE-----")

-- An armored text with a body of one line.
abbrev pub armor_rest : String → String → String
armor_rest name b64 = "\n" <> ("" <> ("\n" <> (b64 <> ("\n" <> (end_line name <> ("\n" <> ""))))))

abbrev pub armor_text : String → String → String
armor_text name b64 = begin_line name <> armor_rest name b64

-- The marker lines of a name are found, and are clean.
pub record IsMarker (name : String) : Type 0 where
  pub begins : is_begin (trim (begin_line name)) ≡ true
  pub begins_plain : is_begin (begin_line name) ≡ true
  pub signature : contains "SIGNATURE" (begin_line name) ≡ true
  pub ends : is_begin (trim (end_line name)) ≡ false
  pub stops : is_end (trim (end_line name)) ≡ true
  pub begin_clean : all_codes (λ c. ltb c 128 && not (c == 10)) (begin_line name) ≡ true
  pub end_clean : all_codes (λ c. ltb c 128 && not (c == 10)) (end_line name) ≡ true

pub IsMarker-pgp : IsMarker "PGP"
unfolding is_begin is_end trim contains all_codes
IsMarker-pgp = record {
  begins = refl;
  begins_plain = refl;
  signature = refl;
  ends = refl;
  stops = refl;
  begin_clean = refl;
  end_clean = refl;
}

pub IsMarker-pipe_k1 : IsMarker "PIPE-K1"
unfolding is_begin is_end trim contains all_codes
IsMarker-pipe_k1 = record {
  begins = refl;
  begins_plain = refl;
  signature = refl;
  ends = refl;
  stops = refl;
  begin_clean = refl;
  end_clean = refl;
}
