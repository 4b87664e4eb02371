-- ===== src/Timezone/ZoneFile.antt =====
-- Zone files in the format of tzfile(5), as flute/common/Timezone.cc is to read them.
use flute.Prelude.{
  ℕ, ◌<◌, ◌^◌, ◌≡◌, if◌then◌else◌, none, some, List, [], ◌∷◌, ◌++◌, length, map, get_elem?, All, ℤ,
  pos, ◌+ℤ◌, to_int32, IsInt32,
}
use flute.Buffer.{be_bytes}
use flute.Timezone.{Transition, Localtime, TimeData}
use flute.Timezone.File.{magic}

-- A zone: its transitions with the index of their local time, and the parts that are not looked at.
pub record Zone : Type 0 where
  pub version : ℕ
  pub reserved : List ℕ
  pub isgmtcnt : ℤ
  pub isstdcnt : ℤ
  pub leapcnt : ℤ
  pub entries : List (ℤ × ℕ)
  pub types : List Localtime
  pub chars : List ℕ

abbrev pub int32_bytes : ℤ → List ℕ
int32_bytes a = be_bytes 4 (to_int32 a)

abbrev pub byte : ℕ → List ℕ
byte x = x ∷ []

abbrev pub localtime_bytes : Localtime → List ℕ
localtime_bytes l = int32_bytes l.gmt_offset ++ (if l.is_dst then 1 else 0) ∷ l.arrb_idx ∷ []

unfoldable pub print_items {ℓ} : {A : Type ℓ} → (A → List ℕ) → List A → List ℕ → List ℕ
print_items print [] rest = rest
print_items print (x ∷ xs) rest = print x ++ print_items print xs rest

-- The four bytes of a number of items.
abbrev pub count {ℓ} : {A : Type ℓ} → List A → List ℕ
count xs = int32_bytes (pos (length xs))

abbrev pub lists_of : Zone → List ℕ → List ℕ
lists_of z rest =
    print_items (λ e. int32_bytes (e.0)) z.entries
      (print_items (λ e. byte (e.1)) z.entries
        (print_items localtime_bytes z.types (z.chars ++ rest)))

-- The file of a zone, with anything behind it.
unfoldable pub zone_bytes : Zone → List ℕ → List ℕ
zone_bytes z rest =
    print_items (λ part. part)
      (magic
        ∷ byte z.version
        ∷ z.reserved
        ∷ int32_bytes z.isgmtcnt
        ∷ int32_bytes z.isstdcnt
        ∷ int32_bytes z.leapcnt
        ∷ count z.entries
        ∷ count z.types
        ∷ count z.chars
        ∷ [])
      (lists_of z rest)

pub record IsZone (z : Zone) : Type 0 where
  pub reserved : length z.reserved ≡ 15
  pub isgmtcnt : IsInt32 z.isgmtcnt
  pub isstdcnt : IsInt32 z.isstdcnt
  pub leapcnt : IsInt32 z.leapcnt
  pub entries : All (λ e. IsInt32 (e.0) × (e.1 < length z.types)) z.entries
  pub types : All (λ l. IsInt32 l.gmt_offset) z.types
  pub many_entries : length z.entries < 2 ^ 31
  pub many_types : length z.types < 2 ^ 31
  pub many_chars : length z.chars < 2 ^ 31

-- What the zone says: each transition has the offset of its local time added.
unfoldable pub transition_of : List Localtime → ℤ × ℕ → Transition
transition_of types (t, i) = elim (get_elem? types i) [
  | some l ↦ record { gmttime = t; localtime = t +ℤ l.gmt_offset; localtime_idx = i }
  | none ↦ record { gmttime = t; localtime = t; localtime_idx = i }
]

abbrev pub data_of : Zone → TimeData
data_of z = record {
  transitions = map (transition_of z.types) z.entries;
  localtimes = z.types;
  abbreviation = z.chars;
}
