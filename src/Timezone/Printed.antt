-- ===== src/Timezone/Printed.antt =====
-- A zone file in the format of tzfile(5), version 1, and what flute/common/Timezone.cc reads of it.
use flute.Prelude.{
  get_elem?-defined, All-imp, ltb_ℤ, ℕ, ◌<◌, ◌^◌, ◌≡◌, refl, ap, ◌∙◌, sym, Bool, true, false, not,
  ◌==◌, if◌then◌else◌, Option, some, List, [], ◌∷◌, ◌++◌, length, map, get_elem?, take-append,
  drop-append, length-append, append_assoc, append-nil, All, ℤ, pos, ◌+ℤ◌, to_int32, IsInt32,
  from_int32-to_int32, le→leb, arith,
}
use flute.Buffer.{be_value}
use flute.Buffer.Ints.{length-be_bytes, be_value-be_bytes}
use flute.Timezone.{Transition, Localtime, TimeData, empty_data}
use flute.Timezone.File.{
  read_bytes, read_int32, read_uint8, read_items, magic, read_head, read_localtime, push_localtime,
  read_localtimes, push_transitions, read_abbreviation, read_body, read_rest, read_timezone_file,
}
use flute.Timezone.ZoneFile.{
  Zone, int32_bytes, byte, localtime_bytes, print_items, zone_bytes, IsZone, transition_of, data_of,
}

read_bytes-append :
    (n : ℕ) (xs rest : List ℕ) → length xs ≡ n → read_bytes n (xs ++ rest) ≡ some (xs, rest)
unfolding read_bytes
read_bytes-append n xs rest h =
    rw
      (
        le→leb n (length (xs ++ rest)) (omega (arith, h, length-append xs rest)),
        take-append n xs rest h,
        drop-append n xs rest h,
      )
      refl

to_int32-bound : (a : ℤ) → to_int32 a < 256 ^ 4
to_int32-bound a = ground arith

read_int32-bytes :
    (a : ℤ) (rest : List ℕ) → IsInt32 a → read_int32 (int32_bytes a ++ rest) ≡ some (a, rest)
unfolding read_int32
read_int32-bytes a rest h =
    rw
      (
        read_bytes-append 4 (int32_bytes a) rest (length-be_bytes 4 (to_int32 a)),
        be_value-be_bytes 4 (to_int32 a) (to_int32-bound a),
        from_int32-to_int32 a h,
      )
      refl

read_uint8-byte : (x : ℕ) (rest : List ℕ) → read_uint8 (x ∷ rest) ≡ some (x, rest)
unfolding read_uint8 be_value
read_uint8-byte x rest =
    rw (read_bytes-append 1 (byte x) rest refl) (ap (λ n. some (n, rest)) (omega arith))

read_items-print {ℓ κ} :
    {A : Type ℓ} {B : Type κ} (read : List ℕ → Option (B × List ℕ)) (print : A → List ℕ)
    (value : A → B) (xs : List A) (rest : List ℕ)
    → All (λ x. (tail : List ℕ) → read (print x ++ tail) ≡ some (value x, tail)) xs
    → read_items read (length xs) (print_items print xs rest) ≡ some (map value xs, rest)
unfolding read_items print_items
read_items-print read print value [] rest h = refl
read_items-print read print value (x ∷ xs) rest (first, h) =
    rw (first (print_items print xs rest), read_items-print read print value xs rest h) refl

read_localtime-bytes :
    (l : Localtime) (rest : List ℕ)
    → IsInt32 l.gmt_offset
    → read_localtime (localtime_bytes l ++ rest) ≡ some (l, rest)
unfolding read_localtime
read_localtime-bytes l rest h =
    rw
      (
        append_assoc (int32_bytes l.gmt_offset) ((if l.is_dst then 1 else 0) ∷ l.arrb_idx ∷ [])
            rest,
        read_int32-bytes l.gmt_offset ((if l.is_dst then 1 else 0) ∷ l.arrb_idx ∷ rest) h,
        read_uint8-byte (if l.is_dst then 1 else 0) (l.arrb_idx ∷ rest),
        read_uint8-byte l.arrb_idx rest,
      )
      (ap (λ b. some (record l { is_dst = b }, rest)) (flag (l.is_dst)))
  where
    flag : (b : Bool) → not ((if b then 1 else 0) == 0) ≡ b
    flag true = refl
    flag false = refl

read_localtimes-print :
    (d : TimeData) (ls : List Localtime) (rest : List ℕ)
    → All (λ l. IsInt32 l.gmt_offset) ls
    → read_localtimes (length ls) d (print_items localtime_bytes ls rest)
      ≡ (record d { localtimes = d.localtimes ++ ls }, some rest)
unfolding read_localtimes print_items
read_localtimes-print d [] rest h = rw (append-nil d.localtimes) refl
read_localtimes-print d (l ∷ ls) rest (first, h) =
    rw (read_localtimes, read_localtime-bytes l (print_items localtime_bytes ls rest) first)
      (read_localtimes-print (push_localtime d l) ls rest h
        ∙ ap (λ x. (record d { localtimes = x }, some rest))
            (append_assoc d.localtimes (l ∷ []) ls))

transition_of-found :
    (types : List Localtime) (t : ℤ) (i : ℕ) (l : Localtime)
    → get_elem? types i ≡ some l
    → transition_of types (t, i)
      ≡ record { gmttime = t; localtime = t +ℤ l.gmt_offset; localtime_idx = i }
unfolding transition_of
transition_of-found types t i l h = rw (transition_of, h) refl

push_transitions-entries :
    (d : TimeData) (es : List (ℤ × ℕ))
    → All (λ e. e.1 < length d.localtimes) es
    → push_transitions (map (λ e. e.0) es) (map (λ e. e.1) es) d
      ≡ some (record d { transitions = d.transitions ++ map (transition_of d.localtimes) es })
unfolding push_transitions
push_transitions-entries d [] h = rw (append-nil d.transitions) refl
push_transitions-entries d ((t, i) ∷ es) (first, h) =
    let (l, found) = get_elem?-defined d.localtimes i first in
    let new : Transition = record {
      gmttime = t;
      localtime = t +ℤ l.gmt_offset;
      localtime_idx = i;
    } in
    rw found (
      push_transitions-entries (record d { transitions = d.transitions ++ new ∷ [] }) es h
      ∙ ap (λ x. some (record d { transitions = x }))
          (append_assoc d.transitions (new ∷ []) (map (transition_of d.localtimes) es)
            ∙ ap (λ x. d.transitions ++ x ∷ map (transition_of d.localtimes) es)
                (sym (transition_of-found d.localtimes t i l found))))

count-IsInt32 : (n : ℕ) → n < 2 ^ 31 → IsInt32 (pos n)
count-IsInt32 n h = record { above = omega (arith, h); below = omega arith }

not_below_zero : (n : ℕ) → ltb_ℤ (pos n) (pos 0) ≡ false
not_below_zero n = ground arith

times_read :
    (z : Zone) (rest : List ℕ)
    → IsZone z
    → read_items read_int32 (length z.entries) (print_items (λ e. int32_bytes (e.0)) z.entries rest)
      ≡ some (map (λ e. e.0) z.entries, rest)
times_read z rest v =
    read_items-print read_int32 (λ e. int32_bytes (e.0)) (λ e. e.0) z.entries rest
      (All-imp z.entries (λ e h tail. read_int32-bytes (e.0) tail (h.0)) v.entries)

indices_read :
    (z : Zone) (rest : List ℕ)
    → IsZone z
    → read_items read_uint8 (length z.entries) (print_items (λ e. byte (e.1)) z.entries rest)
      ≡ some (map (λ e. e.1) z.entries, rest)
indices_read z rest v =
    read_items-print read_uint8 (λ e. byte (e.1)) (λ e. e.1) z.entries rest
      (All-imp z.entries (λ e h tail. read_uint8-byte (e.1) tail) v.entries)

read_head-zone :
    (z : Zone) (rest : List ℕ)
    → IsZone z
    → read_head (zone_bytes z rest)
      ≡ some (
        record {
          typecnt = pos (length z.types);
          charcnt = pos (length z.chars);
          trans = map (λ e. e.0) z.entries;
          indices = map (λ e. e.1) z.entries;
        },
        print_items localtime_bytes z.types (z.chars ++ rest),
      )
unfolding read_head zone_bytes print_items
read_head-zone z rest v =
    rw
      (
        read_bytes-append 4 magic _ refl,
        read_bytes-append 1 (byte z.version) _ refl,
        read_bytes-append 15 z.reserved _ v.reserved,
        read_int32-bytes z.isgmtcnt _ v.isgmtcnt,
        read_int32-bytes z.isstdcnt _ v.isstdcnt,
        read_int32-bytes z.leapcnt _ v.leapcnt,
        read_int32-bytes (pos (length z.entries)) _ (count-IsInt32 _ v.many_entries),
        read_int32-bytes (pos (length z.types)) _ (count-IsInt32 _ v.many_types),
        read_int32-bytes (pos (length z.chars)) _ (count-IsInt32 _ v.many_chars),
        not_below_zero (length z.entries),
        times_read z _ v,
        indices_read z _ v,
      )
      refl

read_abbreviation-chars :
    (d : TimeData) (chars rest : List ℕ)
    → read_abbreviation (pos (length chars)) (chars ++ rest) d
      ≡ some (record d { abbreviation = chars })
unfolding read_abbreviation
read_abbreviation-chars d chars rest =
    rw (not_below_zero (length chars), read_bytes-append (length chars) chars rest refl) refl

-- The file of a zone in the format of tzfile(5), version 1, with at most as many items as its counts
-- can tell and with the index of each transition below the number of local times, is read to the end,
-- whatever follows: the data have its transitions, each with the offset of its local time added, its
-- local times and its abbreviations.
pub read_timezone_file-zone_bytes :
    (z : Zone) (rest : List ℕ)
    → IsZone z
    → read_timezone_file (some (zone_bytes z rest)) empty_data ≡ some (true, data_of z)
unfolding read_timezone_file read_body read_rest
read_timezone_file-zone_bytes z rest v =
    rw
      (
        read_timezone_file,
        read_head-zone z rest v,
        read_body,
        read_localtimes-print empty_data z.types (z.chars ++ rest) v.types,
        push_transitions-entries (record empty_data { localtimes = z.types }) z.entries
            (All-imp z.entries (λ e h. h.1) v.entries),
        read_abbreviation-chars
            (record empty_data {
              localtimes = z.types;
              transitions = map (transition_of z.types) z.entries;
            })
            z.chars rest,
      )
      refl
