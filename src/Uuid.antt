-- ===== src/Uuid.antt =====
-- pkg/uuid/uuid.go: random version 4 identifiers. The random bytes are the state of the disk
-- model, the next 16 at the head; a source that has run dry is the error of `RandRead`.
pub mod Laws
mod Tests
use Prim.Native.Nat.{bit_and, bit_or}
use simple_registry.Base.{
  ℕ, zero, suc, ◌+◌, ◌-◌, ◌/◌, ◌%◌, List, [], ◌∷◌, ◌++◌, map, Text, Error, Result, ok, err, Action,
  panic, wrapped, take, drop, ltb, if◌then◌else◌, codes,
}
use simple_registry.Disk.{Disk}

-- One digit of `%x`.
unfoldable pub hex_char : ℕ → ℕ
hex_char n = if ltb n 10 then b'0' + n else b'a' + n - 10

-- `%x` of a byte slice: two digits for each byte.
unfoldable pub hex : Text → Text
unfolding hex_char
hex [] = []
hex (b ∷ bs) = hex_char (b / 16) ∷ hex_char (b % 16) ∷ hex bs

-- `uuid[6] = (uuid[6] & 0x0f) | 0x40` and `uuid[8] = (uuid[8] & 0x3f) | 0x80`.
unfoldable pub set_version : ℕ → ℕ
set_version b = bit_or (bit_and b 0x0f) 0x40

unfoldable pub set_variant : ℕ → ℕ
set_variant b = bit_or (bit_and b 0x3f) 0x80

-- Byte `i` replaced by its image.
abbrev pub modify_at : ℕ → (ℕ → ℕ) → Text → Text
modify_at i f [] = []
modify_at zero f (b ∷ bs) = f b ∷ bs
modify_at (suc i) f (b ∷ bs) = b ∷ modify_at i f bs

unfoldable pub stamp : Text → Text
unfolding set_version set_variant
stamp bytes = modify_at 8 set_variant (modify_at 6 set_version bytes)

-- `String`: the slices [0:4], [4:6], [6:8], [8:10] and [10:16] in hexadecimal, joined by dashes.
unfoldable pub to_string : Text → Text
unfolding hex
to_string u =
    hex (take 4 u)
    ++ (b'-' ∷ hex (take 2 (drop 4 u))
        ++ (b'-' ∷ hex (take 2 (drop 6 u))
            ++ (b'-' ∷ hex (take 2 (drop 8 u)) ++ (b'-' ∷ hex (take 6 (drop 10 u))))))

-- `New`.
unfoldable pub new : Action Disk Text
new d = elim d.entropy [
  | [] ↦ (err wrapped, d)
  | bytes ∷ rest ↦ (ok (stamp bytes), record d { entropy = rest })
]

-- `MustNew`.
unfoldable pub must_new : Action Disk Text
must_new d = let (r, d') = new d in elim r [ ok u ↦ (ok u, d') | err e ↦ (err panic, d') ]
