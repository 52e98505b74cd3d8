-- ===== src/Oracle/Hints.antt =====
-- crates/proof/src/hint.rs: the parser of a hint's name, and that it reads what is printed.
use text.Mathlib.Text.{◌==◌ as str_eq}
use hokulea.Base.{◌≡◌, refl, String, false, Outcome, ok, ◌>>=◌, if◌then◌else◌}
use hokulea.Cert.Codec.{Alloy}
use hokulea.Oracle.{Kona, ExtendedHintType, original, eigenda_cert, hint_text}

-- `ExtendedHintType::from_str`, over the parser of kona's `HintType`
unfoldable pub from_str :
    {E H : Type 0} → (String → Outcome E H) → String → Outcome E (ExtendedHintType H)
from_str hint_from_str value =
    if str_eq value "eigenda-certificate"
    then ok eigenda_cert
    else hint_from_str value >>= λ ty. ok (original ty)

-- A hint's name is read back, if kona reads back its own names and none of them is that of a
-- certificate hint.
from_str-hint_text :
    {T K H E : Type 0} (alloy : Alloy) (kona : Kona T K H) (hint_from_str : String → Outcome E H)
    → ((h : H) → hint_from_str (kona.hint_name h) ≡ ok h)
    → ((h : H) → (str_eq (kona.hint_name h) "eigenda-certificate") ≡ false)
    → (hint : ExtendedHintType H) → from_str hint_from_str (hint_text alloy kona hint) ≡ ok hint
unfolding from_str hint_text
from_str-hint_text alloy kona hint_from_str reads distinct eigenda_cert = refl
from_str-hint_text alloy kona hint_from_str reads distinct (original h) = rw (distinct h, reads h)
