-- ===== src/Tests/Shim.antt =====
-- Examples of the theorems about the shim, the armor, the calendar and the options.
use pipek.Prelude.{◌<◌, ◌≡◌, refl, some, [], ◌∷◌, ok, arith, inl, inr}
use pipek.Prelude.Text.{as_bytes, contains}
use pipek.Io.{chunk}
use pipek.World.{World}
use pipek.Crypto.Toy.{toy, toy-IsBase64}
use pipek.Armor.{detach_armor}
use pipek.Armor.RoundTrip.{detach_armor-armor_text}
use pipek.Armor.Markers.{armor_text, IsMarker-pgp}
use pipek.Civil.{date, civil_date}
use pipek.Civil.Calendar.{date_after, civil_date-date_after, civil_date_february}
use pipek.Options.{scan}
use pipek.Options.Pairs.{last_value, Pairs}
use pipek.Signers.Paths.{candidate_paths, resolve_allowed_signers}
use pipek.Shim.{find_identity}
use pipek.Shim.Trust.{file_entries, find_identity-refines}
use pipek.Cli.{verify_meaning}
use pipek.Main.{base_name_from, is_git_invocation, real_main}
use pipek.Main.Refuse.{real_main_refuses}
use pipek.Tests.{process, recipient_key, recipient_hex}
use pipek.Tests.Team.{team}

detach_armor-armor_text_example :
    detach_armor toy (as_bytes (armor_text "PGP" (toy.base64_encode (1 ∷ 2 ∷ 300 ∷ []))))
    ≡ ok (1 ∷ 2 ∷ 300 ∷ [])
detach_armor-armor_text_example =
    detach_armor-armor_text toy toy-IsBase64 "PGP" (1 ∷ 2 ∷ 300 ∷ []) IsMarker-pgp

spring : date_after 60 ≡ date 1970 3 2
unfolding date_after
spring = refl

civil_date-date_after_example : civil_date 60 ≡ date_after 60
unfolding date_after
civil_date-date_after_example = civil_date-date_after 60 (omega arith) (λ e. absurd (omega arith))

end_of_february : date_after 58 ≡ date 1970 2 28
unfolding date_after
end_of_february = refl

civil_date_february_example : 12 < (civil_date 58).month
civil_date_february_example = civil_date_february 58 1970 end_of_february (omega arith)

find_identity-refines_example :
    find_identity recipient_key (resolve_allowed_signers toy team)
    ≡ find_identity recipient_key (file_entries toy (candidate_paths team) team)
find_identity-refines_example = find_identity-refines toy recipient_key team

abbrev options : Pairs
options =
    ("--recipient", "npub1a")
    ∷ ("--mode", "1")
    ∷ ("--sec-fd", "3")
    ∷ ("--recipient", recipient_hex)
    ∷ []

last_recipient : last_value "--recipient" options ≡ some recipient_hex
unfolding last_value
last_recipient = refl

reader : World
reader = process (chunk (1 ∷ []) ∷ []) []

real_main_refuses_example :
    let run =
      real_main toy 0 ("pipe-k1" ∷ "verify" ∷ "--sig" ∷ "a.sig" ∷ "--pass-through" ∷ []) reader in
    (run.0 ≡ some 2) × (run.1 ≡ record reader { stderr = run.1.stderr })
unfolding base_name_from is_git_invocation contains scan verify_meaning
real_main_refuses_example =
    real_main_refuses toy 0 "pipe-k1" "verify" ("--sig" ∷ "a.sig" ∷ "--pass-through" ∷ []) reader
      refl (inr (inl (refl, inr (refl, refl))))
