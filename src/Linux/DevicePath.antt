-- ===== src/Linux/DevicePath.antt =====
-- The device path under which src/boot/linux.rs offers the initrd, byte by byte.
use alpheratz.Prelude.{
  ℕ, zero, suc, ◌+◌, ◌-◌, ◌*◌, ◌/◌, ◌%◌, ◌≡◌, refl, List, [], ◌∷◌, ◌++◌, Option, none, some, ◌&&◌,
  ◌||◌, ltb, ◌==◌, if◌then◌else◌, length, take, drop, is_empty,
}
use alpheratz.Prelude.Fallible.{◌>>=◌}

pub record InitrdDevicePath : Type 0 where
  pub vendor_type : ℕ
  pub vendor_subtype : ℕ
  pub vendor_length : List ℕ
  pub vendor_guid : List ℕ
  pub end_type : ℕ
  pub end_subtype : ℕ
  pub end_length : List ℕ

abbrev pub initrd_device_path : InitrdDevicePath
initrd_device_path = record {
  vendor_type = 0x04;
  vendor_subtype = 0x03;
  vendor_length = 20 ∷ 0 ∷ [];
  vendor_guid =
      0x27 ∷ 0xe4 ∷ 0x68 ∷ 0x55 ∷ 0xfc ∷ 0x68 ∷ 0x3d ∷ 0x4f ∷ 0xac ∷ 0x74 ∷ 0xca ∷ 0x55 ∷ 0x52
      ∷ 0x31 ∷ 0xcc ∷ 0x68 ∷ [];
  end_type = 0x7f;
  end_subtype = 0xff;
  end_length = 4 ∷ 0 ∷ [];
}

-- `#[repr(C, packed)]`: the fields follow each other.
abbrev pub in_memory : InitrdDevicePath → List ℕ
in_memory p =
    p.vendor_type
    ∷ p.vendor_subtype
    ∷ (p.vendor_length ++ p.vendor_guid ++ p.end_type ∷ p.end_subtype ∷ p.end_length)

-- How the UEFI specification reads a path: each node has a type, a subtype and a length of two bytes
-- that counts them all; a node of type 0x7f and subtype 0xff ends the path.
pub record PathNode : Type 0 where
  pub type_of : ℕ
  pub subtype_of : ℕ
  pub contents : List ℕ

abbrev read_path : ℕ → List ℕ → Option (List PathNode)
read_path (suc fuel) (t ∷ sub ∷ low ∷ high ∷ rest) =
    let size = low + 256 * high in
    let node : PathNode = record {
      type_of = t;
      subtype_of = sub;
      contents = take (size - 4) rest;
    } in
    let more = read_path fuel (drop (size - 4) rest) in
    if t == 0x7f && sub == 0xff
    then (if size == 4 && is_empty rest then some [] else none)
    else if ltb size 4 || ltb (length rest) (size - 4)
    then none
    else (more >>= λ nodes. some (node ∷ nodes))
read_path _ _ = none

-- A GUID in memory: the first three fields from their lowest byte on.
abbrev little_endian : ℕ → ℕ → List ℕ
little_endian zero n = []
little_endian (suc width) n = n % 256 ∷ little_endian width (n / 256)

abbrev guid : ℕ → ℕ → ℕ → List ℕ → List ℕ
guid a b c d = little_endian 4 a ++ little_endian 2 b ++ little_endian 2 c ++ d

-- The path is one vendor media node, with the GUID that Linux looks for, and its end.
initrd_device_path-read :
    read_path 2 (in_memory initrd_device_path)
    ≡ some (
        record {
          type_of = 4;
          subtype_of = 3;
          contents =
              guid 0x5568e427 0x68fc 0x4f3d
                (0xac ∷ 0x74 ∷ 0xca ∷ 0x55 ∷ 0x52 ∷ 0x31 ∷ 0xcc ∷ 0x68 ∷ []);
        }
        ∷ [])
initrd_device_path-read = refl
