-- ===== src/Diskscan/Realtime/Renamed.antt =====
-- A directory keeps the path under which it was first watched.
use ctguard.Base.{
  ℕ, ◌≡◌, refl, Bool, false, not, ◌&&◌, List, [], ◌∷◌, All, Option, some, Option-cases,
  Outcome-cases, inl, inr, Bytes, ==_iff, lookup, emplace, lookup-emplace, lookup-remove_key,
  nat_key, Outcome, ok, err, Post, Post-eq-ok, Post-bind, Post-if, Whatever, arith,
}
use ctguard.Diskscan.Scan.{Dir, nil, failed, entry, is_dot, child_path}
use ctguard.Diskscan.Config.{Watch}
use ctguard.Diskscan.Realtime.{
  Mask, delete_self, create_dir, moved_to_dir, modify, Watches, WatchError, Notices, Reading,
  add_inner, add_watch, full_path, with_diff, content_flags, handle_mask, handle_path, is_ignored,
  watch_event, watch_events, told, along, Stopped,
}

-- The directory of the descriptor is not deleted.
abbrev pub IsKept : ℕ → Reading → Type 0
IsKept wd r = ¬ ((r.event.mask ≡ delete_self) × (r.event.wd ≡ wd))

module _ (descriptor : Bytes → Option ℕ) (wd : ℕ) (path : Bytes) where
  abbrev pub Names : Watches → Type 0
  Names ws = lookup wd ws ≡ some path

  emplace-Names : (k : ℕ) (p : Bytes) (ws : Watches) → Names ws → Names (emplace k p ws)
  emplace-Names k p ws h = ground (arith, lookup-emplace k wd p ws, h)

  add_inner-Names :
      (at : Bytes) (dir : Dir) (ws : Watches)
      → Names ws
      → Post Whatever Names (add_inner descriptor at dir ws)
  unfolding add_inner
  add_inner-Names at nil ws h = h
  add_inner-Names at failed ws h = tt
  add_inner-Names at (entry name is_dir inner rest) ws h =
      let child = child_path at name in
      let skipped = add_inner-Names at rest ws h in
      Post-if Whatever Names (is_dir && not (is_dot name)) _ _
        (λ t. elim (Option-cases (descriptor child)) [
          | inl e ↦ rw e skipped
          | inr (k, e) ↦ rw e (
              Post-bind Whatever Names Names (add_inner descriptor child inner (emplace k child ws))
                _ (add_inner-Names child inner (emplace k child ws) (emplace-Names k child ws h))
                (λ more n. add_inner-Names at rest more n))
        ])
        (λ t. skipped)

  add_watch-Names :
      (recursive : Bool) (at : Bytes) (dir : Dir) (ws : Watches)
      → Names ws
      → Post Whatever Names (add_watch descriptor recursive at dir ws)
  unfolding add_watch
  add_watch-Names recursive at dir ws h = elim (Option-cases (descriptor at)) [
    | inl e ↦ rw (e, add_watch) h
    | inr (k, e) ↦
        rw (e, add_watch)
          (let kept = emplace-Names k at ws h in
            Post-if Whatever Names recursive _ _
              (λ t. add_inner-Names at dir (emplace k at ws) kept) (λ t. kept))
  ]

  module _ (ignores : Bytes → Bool) (w : Watch) where
    abbrev NamesAfter : Watches × Notices → Type 0
    NamesAfter x = Names x.0

    added :
        (m : Outcome WatchError Watches) (out : Notices)
        → Post Whatever Names m
        → Post Whatever NamesAfter (told out m)
    unfolding told
    added (ok more) out h = h
    added (err e) out h = tt

    handle_mask-Names :
        (m : Mask) (k time : ℕ) (at : Bytes) (dir : Dir) (ws : Watches)
        → ¬ ((m ≡ delete_self) × (k ≡ wd))
        → Names ws
        → Post Whatever NamesAfter (handle_mask descriptor ignores w m k time at dir ws)
    unfolding handle_mask
    handle_mask-Names delete_self k time at dir ws kept h =
        ground (arith, lookup-remove_key k wd ws, ==_iff k wd, h, kept)
    handle_mask-Names create_dir k time at dir ws kept h =
        added (add_watch descriptor w.recursive at dir ws) _
          (add_watch-Names w.recursive at dir ws h)
    handle_mask-Names moved_to_dir k time at dir ws kept h =
        added (add_watch descriptor w.recursive at dir ws) _
          (add_watch-Names w.recursive at dir ws h)
    handle_mask-Names _ k time at dir ws kept h = h

    watch_event-Names :
        (r : Reading) (ws : Watches)
        → IsKept wd r
        → Names ws
        → Post Whatever NamesAfter (watch_event descriptor ignores w r ws)
    unfolding watch_event handle_path
    watch_event-Names r ws kept h =
        Post-if Whatever NamesAfter (is_ignored r.event.mask) _ _ (λ t. h)
          (λ t. elim (Option-cases (lookup r.event.wd ws)) [
            | inl e ↦ rw (e, handle_path) tt
            | inr (p, e) ↦
                rw (e, handle_path)
                  (Post-if Whatever NamesAfter (ignores (full_path p r.event.name)) _ _ (λ u. h)
                    (λ u. handle_mask-Names r.event.mask r.event.wd r.time _ r.dir ws kept h))
          ])

    along-Names :
        (out : Notices) (o : Outcome Stopped (Watches × Notices))
        → Post Whatever NamesAfter o
        → Post Whatever NamesAfter (along out o)
    unfolding along
    along-Names out (ok (ws, outs)) h = h
    along-Names out (err (e, outs)) h = tt

    watch_events-Names :
        (rs : List Reading) (ws : Watches)
        → All (IsKept wd) rs
        → Names ws
        → Post Whatever NamesAfter (watch_events descriptor ignores w rs ws)
    unfolding watch_events
    watch_events-Names [] ws kept h = h
    watch_events-Names (r ∷ rs) ws kept h =
        elim (Outcome-cases (watch_event descriptor ignores w r ws)) [
          | inr (e, eq) ↦ rw (eq, watch_events) tt
          | inl ((more, out), eq) ↦
              rw (eq, watch_events)
                (along-Names out (watch_events descriptor ignores w rs more)
                  (watch_events-Names rs more kept.1 (rw eq at (watch_event-Names r ws kept.0 h))))
        ]

    -- As long as watch_task has not ended by an exception and the directory is not deleted, however
    -- it is moved: a later change of a file in it is reported below the path under which the
    -- directory was first watched.
    pub first_path_stays :
        (rs : List Reading) (ws later : Watches) (out : Notices) (r : Reading) (name : Bytes)
        → All (IsKept wd) rs
        → lookup wd ws ≡ some path
        → watch_events descriptor ignores w rs ws ≡ ok (later, out)
        → r.event.wd ≡ wd
        → r.event.mask ≡ modify
        → r.event.name ≡ some name
        → ignores (child_path path name) ≡ false
        → watch_event descriptor ignores w r later
          ≡ ok (
            later,
            record {
              events =
                  (r.time, child_path path name, with_diff descriptor ignores w content_flags) ∷ [];
              scans = [];
            },
          )
    unfolding watch_event handle_path
    first_path_stays rs ws later out r name kept h ran w-eq m n free =
        rw
          (
            m,
            w-eq,
            Post-eq-ok NamesAfter (watch_events descriptor ignores w rs ws)
                (watch_events-Names rs ws kept h) ran,
            handle_path,
          )
          (rw n (rw free (rw (m, handle_mask) refl)))
