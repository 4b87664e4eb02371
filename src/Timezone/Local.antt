-- ===== src/Timezone/Local.antt =====
-- Local times in flute/common/Timezone.cc, over `gmtime_r` and `timegm` of the C library.
use mathlib.Core.Option.{some-injective}
use flute.Prelude.{
  Option-cases, subst, zero, suc, ℕ, ◌≤◌, ◌<◌, ◌≡◌, refl, ap, ◌∙◌, inl, inr, Bool, true, false,
  le→leb, some, ◌>>=◌, Bool-cases, List, [], ◌∷◌, length, drop, get_elem?, get_elem?-defined,
  get_elem?-small, All, ℤ, ◌+ℤ◌, +ℤ_cancel, arith,
}
use flute.Timezone.{
  Transition, Localtime, equal, gmt_sentry, local_sentry, text_from, TimeData, Timezone, c_string,
  Tm, comp, at_bound, lower_bound, find_local_time, to_local_time, without_dst, from_local_time,
}
use flute.Timezone.File.{open_zone}
use flute.Timezone.ZoneFile.{Zone, zone_bytes, IsZone, data_of}
use flute.Timezone.Printed.{read_timezone_file-zone_bytes}

-- What stands in every zone that a lookup may be made in: a local time, and for each transition its
-- own, with a place in the abbreviations.
pub record IsUsable (d : TimeData) : Type 0 where
  pub first : 0 < length d.localtimes
  pub indices : All (λ t. t.localtime_idx < length d.localtimes) d.transitions
  pub names : All (λ l. l.arrb_idx ≤ length d.abbreviation) d.localtimes

All-get_elem? {ℓ κ} :
    {A : Type ℓ} (P : A → Type κ) (xs : List A) (i : ℕ) (x : A)
    → All P xs
    → get_elem? xs i ≡ some x
    → P x
All-get_elem? P [] i x a h = absurd (ground (arith, h))
All-get_elem? P (y ∷ ys) zero x (p, a) h = subst P (some-injective y x h) p
All-get_elem? P (y ∷ ys) (suc i) x (p, a) h = All-get_elem? P ys i x a h

-- The place of what is found among the transitions.
at_bound-place :
    (c : Bool) (sentry t : Transition) (ts : List Transition) (i : ℕ)
    → (i ≡ 0 → equal c sentry t ≡ true)
    → (u : Transition) × (k : ℕ) × (at_bound c sentry (t ∷ ts) i ≡ some u)
      × (get_elem? (t ∷ ts) k ≡ some u)
unfolding at_bound
at_bound-place c sentry t ts zero h = (t, 0, rw (h refl) refl, refl)
at_bound-place c sentry t ts (suc i) h = elim (Option-cases (get_elem? ts i)) [
  | inl e ↦
      let (u, last) = get_elem?-defined (t ∷ ts) (length ts) (omega arith) in
      (u, length ts, rw (at_bound, e) (ground (arith, last)), last)
  | inr (u, e) ↦
      let (v, before) = get_elem?-defined (t ∷ ts) i (omega (arith, get_elem?-small ts i u e)) in
      elim (Bool-cases (equal c sentry u)) [
        | inl f ↦ (u, suc i, rw (at_bound, e, f) refl, e)
        | inr f ↦ (v, i, rw (at_bound, e, f) (ground (arith, before)), before)
      ]
]

find_local_time-place :
    (d : TimeData) (sentry : Transition) (c : Bool) (ts : List Transition)
    → 0 < length d.localtimes
    → All (λ t. t.localtime_idx < length d.localtimes) ts
    → (k : ℕ) × (k < length d.localtimes)
      × (find_local_time (record d { transitions = ts }) sentry c ≡ get_elem? d.localtimes k)
unfolding find_local_time lower_bound
find_local_time-place d sentry c [] h a = (0, h, refl)
find_local_time-place d sentry c (t ∷ ts) h a = elim (Bool-cases (comp c sentry t)) [
  | inl e ↦ (0, h, rw e refl)
  | inr e ↦
      let (u, k, found, at) =
        at_bound-place c sentry t ts (lower_bound c sentry (t ∷ ts)) (stops e) in
      (
        u.localtime_idx,
        All-get_elem? (λ t. t.localtime_idx < length d.localtimes) (t ∷ ts) k u a at,
        rw (e, found) refl,
      )
]
  where
    stops : comp c sentry t ≡ false → lower_bound c sentry (t ∷ ts) ≡ 0 → equal c sentry t ≡ true
    stops e f = ground (arith, e, f)

-- In usable data a lookup finds an entry, and its name.
find_local_time-IsUsable :
    (d : TimeData) (sentry : Transition) (c : Bool)
    → IsUsable d
    → (l : Localtime) × (zone : List ℕ) × (find_local_time d sentry c ≡ some l)
      × (text_from d.abbreviation l.arrb_idx ≡ some zone)
find_local_time-IsUsable d sentry c v =
    let (k, small, found) = find_local_time-place d sentry c d.transitions v.first v.indices in
    let (l, at) = get_elem?-defined d.localtimes k small in
    let named =
      All-get_elem? (λ l. l.arrb_idx ≤ length d.abbreviation) d.localtimes k l v.names at in
    (
      l,
      c_string (drop l.arrb_idx d.abbreviation),
      found ∙ at,
      rw (le→leb l.arrb_idx (length d.abbreviation) named) refl,
    )

module _ (gmtime : ℤ → Tm) (timegm : Tm → ℤ) where
  -- The local time by an entry, with the text of its zone.
  abbrev local_tm : Localtime → List ℕ → ℤ → Tm
  local_tm l zone time = record (gmtime (time +ℤ l.gmt_offset)) {
    tm_isdst = l.is_dst;
    tm_gmtoff = l.gmt_offset;
    tm_zone = zone;
  }

  to_local_time-found :
      (d : TimeData) (l : Localtime) (zone : List ℕ) (time : ℤ)
      → find_local_time d (gmt_sentry time) true ≡ some l
      → text_from d.abbreviation l.arrb_idx ≡ some zone
      → to_local_time gmtime timegm (record { data_of = some d }) time ≡ some (local_tm l zone time)
  unfolding to_local_time
  to_local_time-found d l zone time found named = rw (found, named) refl

  without_dst-same :
      (d : TimeData) (l : Localtime) (zone : List ℕ) (time : ℤ)
      → find_local_time d (gmt_sentry time) true ≡ some l
      → text_from d.abbreviation l.arrb_idx ≡ some zone
      → without_dst gmtime timegm
          (record { data_of = some d })
          (local_tm l zone time)
          (time +ℤ l.gmt_offset)
          l
        ≡ some (time +ℤ l.gmt_offset)
  unfolding without_dst
  without_dst-same d l zone time found named = elim (Bool-cases l.is_dst) [
    | inl e ↦
        rw (e, +ℤ_cancel time l.gmt_offset, to_local_time-found d l zone time found named, e) refl
    | inr e ↦ rw e refl
  ]

  -- Where `timegm` gives back the time of `gmtime` and looks at neither the zone nor its offset, and
  -- where the lookups by the time and by the local time find the same entry, the local time is taken
  -- back to the time, in summer and in winter.
  pub from_local_time-to_local_time :
      (d : TimeData) (l : Localtime) (zone : List ℕ) (time : ℤ)
      → find_local_time d (gmt_sentry time) true ≡ some l
      → find_local_time d (local_sentry (time +ℤ l.gmt_offset)) false ≡ some l
      → text_from d.abbreviation l.arrb_idx ≡ some zone
      → ((s : ℤ) (b : Bool) (o : ℤ) (zone : List ℕ)
          → timegm (record (gmtime s) { tm_isdst = b; tm_gmtoff = o; tm_zone = zone }) ≡ s)
      → (to_local_time gmtime timegm (record { data_of = some d }) time
          >>= from_local_time gmtime timegm (record { data_of = some d }))
        ≡ some time
  unfolding from_local_time
  from_local_time-to_local_time d l zone time found again named inverse =
      rw
        (
          to_local_time-found d l zone time found named,
          inverse (time +ℤ l.gmt_offset) l.is_dst l.gmt_offset zone,
          again,
          without_dst-same d l zone time found named,
        )
        (ap some (+ℤ_cancel time l.gmt_offset))

  -- A zone file in the format of tzfile(5), version 1, whose data are usable makes a timezone in which
  -- every time has a local time, and one by an entry of the file.
  pub to_local_time-zone_bytes :
      (z : Zone) (rest : List ℕ) (time : ℤ)
      → IsZone z
      → IsUsable (data_of z)
      → (zone : Timezone) × (l : Localtime) × (text : List ℕ) × (open_zone
            (some (zone_bytes z rest))
          ≡ some zone)
        × (find_local_time (data_of z) (gmt_sentry time) true ≡ some l)
        × (to_local_time gmtime timegm zone time ≡ some (local_tm l text time))
  unfolding open_zone
  to_local_time-zone_bytes z rest time v u =
      let (l, text, found, named) = find_local_time-IsUsable (data_of z) (gmt_sentry time) true u in
      (
        record { data_of = some (data_of z) },
        l,
        text,
        rw (read_timezone_file-zone_bytes z rest v) refl,
        found,
        to_local_time-found (data_of z) l text time found named,
      )
