-- ===== src/Prelude/Strings.antt =====
-- Text and bytes: a Rust `String`, `&str` or `Vec<u8>` is the list of its bytes. The standard
-- library's checks on bytes (UTF-8) are written out.
use Prim.Native.Nat.{ℕ, zero, suc}
use Prim.Native.Char.{code}
use Prim.Native.String.{String}
use mathlib.Core.Path.{◌≡◌, refl}
use mathlib.Core.Logic.{◌↔◌}
use mathlib.Core.Bool.{Bool, true, false, ◌&&◌}
use mathlib.Core.List.{List, [], ◌∷◌}
use mathlib.Core.Option.{Option, none, some}
use native.Mathlib.Omega.{arith}
use tee_prover_server.Prelude.Tests.{ltb, leb, ◌==◌, if◌then◌else◌}

abbrev pub Bytes : Type 0
Bytes = List ℕ

abbrev pub Text : Type 0
Text = List ℕ

-- The bytes of a literal, all of which are ASCII here.
abbrev pub codes : String → Text
codes String.[] = []
codes (String.◌∷◌ c s) = code c ∷ codes s

-- `==` on texts.
unfoldable pub text_eq : Text → Text → Bool
text_eq [] [] = true
text_eq (a ∷ s) (b ∷ t) = a == b && text_eq s t
text_eq _ _ = false

pub text_eq_iff : (s t : Text) → (text_eq s t ≡ true) ↔ (s ≡ t)
unfolding text_eq
text_eq_iff [] [] = ground arith
text_eq_iff [] (b ∷ t) = ground arith
text_eq_iff (a ∷ s) [] = ground arith
text_eq_iff (a ∷ s) (b ∷ t) = ground (arith, text_eq_iff s t)

-- What must follow in a UTF-8 sequence: `need` continuation bytes, the next one in `lo..=hi`.
utf8_from : ℕ → ℕ → ℕ → Bytes → Bool
utf8_from zero lo hi [] = true
utf8_from (suc need) lo hi [] = false
utf8_from (suc need) lo hi (b ∷ bs) = leb lo b && leb b hi && utf8_from need 0x80 0xbf bs
utf8_from zero lo hi (b ∷ bs) =
    let ascii = utf8_from 0 0x80 0xbf bs in
    let two = utf8_from 1 0x80 0xbf bs in
    let three = λ (from to : ℕ). utf8_from 2 from to bs in
    let four = λ (from to : ℕ). utf8_from 3 from to bs in
    if ltb b 0x80
    then ascii
    else if ltb b 0xc2
    then false
    else if ltb b 0xe0
    then two
    else if b == 0xe0
    then three 0xa0 0xbf
    else if b == 0xed
    then three 0x80 0x9f
    else if ltb b 0xf0
    then three 0x80 0xbf
    else if b == 0xf0
    then four 0x90 0xbf
    else if ltb b 0xf4
    then four 0x80 0xbf
    else if b == 0xf4
    then four 0x80 0x8f
    else false

-- Whether the bytes are UTF-8.
unfoldable pub utf8_valid : Bytes → Bool
unfolding utf8_from
utf8_valid = utf8_from 0 0x80 0xbf

-- `String::from_utf8` and `str::from_utf8`: the bytes themselves, if they are valid.
unfoldable pub from_utf8 : Bytes → Option Text
from_utf8 bs = if utf8_valid bs then some bs else none

-- A text that conversion yields has exactly the given bytes.
pub from_utf8_bytes : (bs : Bytes) {t : Text} → from_utf8 bs ≡ some t → t ≡ bs
unfolding from_utf8
from_utf8_bytes bs h = ground arith

from_utf8_ascii : from_utf8 (codes "proof") ≡ some (codes "proof")
unfolding from_utf8 utf8_valid
from_utf8_ascii = refl

from_utf8_refused : from_utf8 (0xc3 ∷ 0x28 ∷ []) ≡ none
unfolding from_utf8 utf8_valid
from_utf8_refused = refl
