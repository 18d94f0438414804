-- ===== src/Common/Text.antt =====
-- JavaScript's operations on texts that the services use, on the native texts.
use Prim.Native.Nat.{ℕ, ◌+◌, ◌-◌, ◌*◌}
use Prim.Native.Char.{Char, code}
use Prim.Native.String.{String}
use mathlib.Core.Bool.{Bool, ◌&&◌, ◌||◌}
use mathlib.Core.Option.{Option, none, some}
use mathlib.Core.List.{List, [], ◌∷◌}
use text.Mathlib.Text.{find?, ◌==◌ as str_eq}
use hivepoint_backend.Common.Tests.{if◌then◌else◌, ◌==◌, leb, is_some}

-- `s.includes(part)`
abbrev pub includes : String → String → Bool
includes s part = is_some (find? s part)

-- `s.endsWith(end)`
abbrev pub ends_with : String → String → Bool
ends_with String.[] end = str_eq String.[] end
ends_with (String.◌∷◌ c s) end = str_eq (String.◌∷◌ c s) end || ends_with s end

-- `split` puts a character before the first piece.
abbrev pub onto_first : Char → List String → List String
onto_first c [] = String.◌∷◌ c String.[] ∷ []
onto_first c (piece ∷ pieces) = String.◌∷◌ c piece ∷ pieces

-- `s.split(separator)`, for a separator of one character, by its code
abbrev pub split : ℕ → String → List String
split separator String.[] = "" ∷ []
split separator (String.◌∷◌ c s) =
    let pieces = split separator s in
    if code c == separator then "" ∷ pieces else onto_first c pieces

-- The digits of a decimal number, after `n`.
abbrev pub decimal_from : ℕ → String → Option ℕ
decimal_from n String.[] = some n
decimal_from n (String.◌∷◌ c s) =
    let rest = decimal_from (n * 10 + (code c - 48)) s in
    if leb 48 (code c) && leb (code c) 57 then rest else none

-- `Number(s)`, of a text of decimal digits; none is NaN.
abbrev pub decimal : String → Option ℕ
decimal = decimal_from 0
