-- ===== src/PollPoller/Places.antt =====
-- The places of the channels in the entries of flute/net/poller/PollPoller.cc.
use flute.Prelude.{
  get_elem?-take, get_elem?-take_small, get_elem?-defined, get_elem?-small, subst, ℕ, ◌+◌, ◌-◌, ◌<◌,
  ◌≡◌, ◌≢◌, refl, sym, ap, ◌∙◌, inl, inr, true, Option, none, some, List, length, length-set,
  length-take, set, get_elem?, get_elem?-set_self, get_elem?-set_ne, arith, ◌==◌, Bool-cases,
}
use mathlib.Core.Option.{some-injective}
use flute.Channel.{is_none, is_none_event}
use flute.PollPoller.{
  PollFd, PollPoller, set_at, set_index, pop_back, move_last, erase_entry, remove_channel, is_at,
}
use flute.PollPoller.Inv.{Placed, Inv, same_place, Erased}

module _ (p : PollPoller) (v : Inv p) (idx : ℕ) (pfd : PollFd) (ptr : ℕ)
    (pl : Placed p idx pfd ptr) where
  erased : ℕ → Option ℕ
  erased = set_at pfd.fd none p.channel_map

  some_entries : idx < length p.pollfds
  some_entries = get_elem?-small p.pollfds idx pfd pl.at

  erased-other : (fd : ℕ) → fd ≢ pfd.fd → erased fd ≡ p.channel_map fd
  unfolding erased
  erased-other fd h = ground (arith, h)

  -- The entry is the last one.
  popped-Inv :
      idx ≡ length p.pollfds - 1
      → Inv (record p { channel_map = erased; pollfds = pop_back p.pollfds })
  unfolding erased
  popped-Inv last = record {
    entries = λ i e h.
        let small : i < length p.pollfds - 1 =
          get_elem?-take_small (length p.pollfds - 1) p.pollfds i e h in
        let there : get_elem? p.pollfds i ≡ some e =
          sym (get_elem?-take (length p.pollfds - 1) p.pollfds i small) ∙ h in
        let (q, k) = v.entries i e there in
        let other : e.fd ≢ pfd.fd =
          λ f. omega (arith, same_place p i idx e pfd q ptr k pl f, small, last) in
        (q, record { at = h; mapped = erased-other e.fd other ∙ k.mapped; fd = k.fd; idx = k.idx });
    mapped = λ fd q h. elim (Bool-cases (pfd.fd == fd)) [
      | inl e ↦ absurd (ground (arith, h, e))
      | inr e ↦
          let other : fd ≢ pfd.fd = ground (arith, e) in
          let (i, f, g, k) = v.mapped fd q (sym (erased-other fd other) ∙ h) in
          let away : i ≢ idx = λ s. other (
            sym g
            ∙ ap PollFd.fd
                (some-injective f pfd (sym k.at ∙ ap (get_elem? p.pollfds) s ∙ pl.at))) in
          let small : i < length p.pollfds - 1 =
            omega (arith, get_elem?-small p.pollfds i f k.at, away, last) in
          (
            i,
            f,
            g,
            record {
              at = get_elem?-take (length p.pollfds - 1) p.pollfds i small ∙ k.at;
              mapped = rw g (h);
              fd = k.fd;
              idx = k.idx;
            },
          )
    ];
  }

  -- The last entry takes the place.
  module _ (l : PollFd) (r : ℕ) (kl : Placed p (length p.pollfds - 1) l r)
      (before : idx ≢ length p.pollfds - 1) where
    moved : PollPoller
    moved =
        set_index r idx
          (record p { channel_map = erased; pollfds = pop_back (set p.pollfds idx l) })

    sizes : length (set p.pollfds idx l) - 1 ≡ length p.pollfds - 1
    sizes = omega (arith, length-set p.pollfds idx l)

    in_front : idx < length p.pollfds - 1
    in_front = omega (arith, some_entries, before)

    at_front :
        (i : ℕ)
        → i < length p.pollfds - 1
        → get_elem? (pop_back (set p.pollfds idx l)) i ≡ get_elem? (set p.pollfds idx l) i
    at_front i h =
        get_elem?-take (length (set p.pollfds idx l) - 1) (set p.pollfds idx l) i
          (omega (arith, sizes, h))

    at_idx : get_elem? (pop_back (set p.pollfds idx l)) idx ≡ some l
    at_idx = at_front idx in_front ∙ get_elem?-set_self p.pollfds idx l some_entries

    last-other : l.fd ≢ pfd.fd
    last-other e = before (sym (same_place p (length p.pollfds - 1) idx l pfd r ptr kl pl e))

    last-Placed : Placed moved idx l r
    unfolding moved
    last-Placed = record {
      at = at_idx;
      mapped = erased-other l.fd last-other ∙ kl.mapped;
      fd = ground (arith, kl.fd);
      idx = ground arith;
    }

    kept-Placed :
        (i : ℕ) (e : PollFd) (q : ℕ)
        → Placed p i e q
        → i ≢ idx
        → i < length p.pollfds - 1
        → Placed moved i e q
    unfolding moved
    kept-Placed i e q k away small =
        let other : e.fd ≢ pfd.fd = λ f. away (same_place p i idx e pfd q ptr k pl f) in
        let apart : q ≢ r = λ f. omega (
          arith,
          small,
          some-injective i (length p.pollfds - 1)
              (sym k.idx ∙ ap (λ x. (p.channels x).idx) f ∙ kl.idx),
        ) in
        record {
          at = at_front i small ∙ get_elem?-set_ne p.pollfds idx i l (λ f. away (sym f)) ∙ k.at;
          mapped = erased-other e.fd other ∙ k.mapped;
          fd = ground (arith, apart, k.fd);
          idx = ground (arith, apart, k.idx);
        }

    moved-Inv : Inv moved
    moved-Inv = record {
      entries = λ i e h.
          let small : i < length p.pollfds - 1 = omega (
            arith,
            sizes,
            get_elem?-take_small (length (set p.pollfds idx l) - 1) (set p.pollfds idx l) i e
                (unfold moved in h),
          ) in
          elim (Bool-cases (i == idx)) [
            | inl f ↦
                let here : i ≡ idx = ground (arith, f) in
                let same : l ≡ e = some-injective l e (
                  sym at_idx
                  ∙ ap (get_elem? (pop_back (set p.pollfds idx l))) (sym here)
                  ∙ unfold moved in h) in
                (
                  r,
                  subst (λ x. Placed moved i x r) same
                      (subst (λ j. Placed moved j l r) (sym here) last-Placed),
                )
            | inr f ↦
                let away : i ≢ idx = ground (arith, f) in
                let there : get_elem? p.pollfds i ≡ some e =
                  sym (at_front i small ∙ get_elem?-set_ne p.pollfds idx i l (λ g. away (sym g)))
                  ∙ unfold moved in h in
                let (q, k) = v.entries i e there in (q, kept-Placed i e q k away small)
          ];
      mapped = λ fd q h. elim (Bool-cases (pfd.fd == fd)) [
        | inl e ↦ absurd (unfold moved erased in ground (arith, h, e))
        | inr e ↦
            let other : fd ≢ pfd.fd = ground (arith, e) in
            let (i, f, g, k) = v.mapped fd q (sym (erased-other fd other) ∙ unfold moved in h) in
            let away : i ≢ idx = λ s. other (
              sym g
              ∙ ap PollFd.fd
                  (some-injective f pfd (sym k.at ∙ ap (get_elem? p.pollfds) s ∙ pl.at))) in
            elim (Bool-cases (i == length p.pollfds - 1)) [
              | inl s ↦
                  let end : i ≡ length p.pollfds - 1 = ground (arith, s) in
                  let same : l ≡ f =
                    some-injective l f (sym kl.at ∙ ap (get_elem? p.pollfds) (sym end) ∙ k.at) in
                  let owner : r ≡ q =
                    some-injective r q
                      (sym kl.mapped ∙ ap (λ (x : PollFd). p.channel_map x.fd) same ∙ k.mapped) in
                  (idx, l, ap PollFd.fd same ∙ g, subst (Placed moved idx l) owner last-Placed)
              | inr s ↦ (
                i,
                f,
                g,
                kept-Placed i f q k away (ground (arith, s, get_elem?-small p.pollfds i f k.at)),
              )
            ]
      ];
    }

  length-pop : (xs : List PollFd) → 0 < length xs → length (pop_back xs) + 1 ≡ length xs
  length-pop xs h = omega (arith, length-take (length xs - 1) xs, h)

  erase_entry-Erased :
      (p' : PollPoller) × (erase_entry idx (record p { channel_map = erased }) ≡ some p')
      × Erased p pfd.fd p'
  unfolding erase_entry move_last erased moved
  erase_entry-Erased = elim (Bool-cases (idx == length p.pollfds - 1)) [
    | inl e ↦ (
      record p { channel_map = erased; pollfds = pop_back p.pollfds },
      rw e refl,
      record {
        inv = popped-Inv (ground (arith, e));
        gone = ground arith;
        others = erased-other;
        one_less = length-pop p.pollfds (omega (arith, some_entries));
      },
    )
    | inr e ↦
        let before : idx ≢ length p.pollfds - 1 = ground (arith, e) in
        let (l, f) =
          get_elem?-defined p.pollfds (length p.pollfds - 1) (omega (arith, some_entries)) in
        let (r, kl) = v.entries (length p.pollfds - 1) l f in
        (
          moved l r kl before,
          rw (e, f, erased-other l.fd (last-other l r kl before), kl.mapped) refl,
          record {
            inv = moved-Inv l r kl before;
            gone = ground arith;
            others = erased-other;
            one_less =
                length-pop (set p.pollfds idx l)
                  (omega (arith, some_entries, length-set p.pollfds idx l))
                ∙ length-set p.pollfds idx l;
          },
        )
  ]

-- Where each entry belongs to a channel of the map that knows its index, and each channel of the map has
-- such an entry, the removal of a channel that has no event of interest and whose entry is ignored
-- succeeds: the map and the entries fit again, with one entry less, the channel's descriptor is no
-- longer in the map, and all others are as before.
pub remove_channel-Erased :
    (p : PollPoller) (ptr idx : ℕ) (pfd : PollFd)
    → Inv p
    → Placed p idx pfd ptr
    → is_none_event (p.channels ptr) ≡ true
    → pfd.ignored ≡ true
    → is_none pfd.events ≡ true
    → (p' : PollPoller) × (remove_channel ptr p ≡ some p') × Erased p (p.channels ptr).fd p'
unfolding remove_channel erased
remove_channel-Erased p ptr idx pfd v pl none_event ignored no_events =
    let (p', run, k) = erase_entry-Erased p v idx pfd ptr pl in
    let there : is_at ptr (p.channel_map (p.channels ptr).fd) ≡ true =
      ground (arith, pl.mapped, pl.fd) in
    let same_fd : (pfd.fd == (p.channels ptr).fd) ≡ true = ground (arith, pl.fd) in
    (
      p',
      simp (there, none_event, pl.idx, pl.at, ignored, same_fd, no_events) (rw pl.fd run),
      rw pl.fd k,
    )
