-- ===== src/Hermes/Delivery/Emptying.antt =====
-- When Hermes takes every event (src/hermes/deliver.ts): the outbox is emptied, oldest event first.
use mathlib.Core.List.{append-nil, append_assoc, Perm}
use mathlib.Core.List.Perm
use scraplify.Base.{
  ◌≡◌, refl, sym, ap, ◌∙◌, Bool, true, false, not, ◌&&◌, ◌||◌, some, List, [], ◌∷◌, ◌++◌, ltb, ◌==◌,
  nat_eq, list_eq, filter-true, All, filter, map, has, Text, and_left, and_right, ◌-◌, beq_refl,
  Bool-cases, inl, inr, arith,
}
use scraplify.Hermes.Hook.{HookConfig, delivered, verdict_of}
use scraplify.Hermes.Delivery.{
  File, PendingEvent, World, DeliveryRun, is_not_named, max_event_age_ms, read_pending, read_files,
  goes_before, insert_pending, sort_pending, go_on, send_event, and_then, send_pending, insert_file,
  text_before, sort_files, names, read_then_send, delivery_pass, arrive, begin_run, deliver_batches,
  deliver_outbox,
}
use scraplify.Hermes.Delivery.Ordering.{
  events_in, IsOrdered, sort_pending-IsOrdered, sorted_events-perm,
}
use scraplify.Hermes.Delivery.Keeping.{has-not_named}

or_without : (a b : Bool) → (a || b) ≡ true → not a ≡ true → b ≡ true
or_without true b h k = cc
or_without false b h k = h

abbrev pending_names : List PendingEvent → List Text
pending_names es = map (λ (e : PendingEvent). e.name) es

module _ (w : World) where
  -- Not older than 14 days when it is looked at, and taken by Hermes.
  abbrev pub IsTaken : PendingEvent → Type 0
  IsTaken e =
      (ltb max_event_age_ms (w.now e.name - e.emitted_at_ms) ≡ false)
      × (verdict_of (w.answer e.name) ≡ delivered)

  abbrev pub IsSendable : File → Type 0
  IsSendable f = (e : PendingEvent) × (read_pending w f ≡ some e) × (e.name ≡ f.name) × IsTaken e

  abbrev remove_sent : List PendingEvent → List File → List File
  remove_sent [] files = files
  remove_sent (e ∷ es) files = remove_sent es (filter (is_not_named e.name) files)

  abbrev after_sends : List PendingEvent → DeliveryRun → DeliveryRun
  after_sends es r = record r {
    outbox = remove_sent es r.outbox;
    sent = r.sent ++ pending_names es;
    delivered_ids = r.delivered_ids ++ map (λ (e : PendingEvent). e.event_id) es;
  }

  send_event-taken :
      (config : HookConfig) (e : PendingEvent) (waiting : List PendingEvent) (r : DeliveryRun)
      → IsTaken e
      → send_event w (some config) e waiting r ≡ go_on (after_sends (e ∷ []) r)
  unfolding send_event
  send_event-taken config e waiting r (recent, taken) = rw (recent, taken) refl

  send_pending-taken :
      (config : HookConfig) (es : List PendingEvent) (r : DeliveryRun)
      → All IsTaken es
      → send_pending w (some config) es r ≡ after_sends es r
  unfolding send_pending
  send_pending-taken config [] r h = rw (append-nil r.sent, append-nil r.delivered_ids) refl
  send_pending-taken config (e ∷ es) r (here, later) =
      ap (and_then (send_pending w (some config) es)) (send_event-taken config e es r here)
      ∙ send_pending-taken config es (after_sends (e ∷ []) r) later
      ∙ rw
          (
            append_assoc r.sent (e.name ∷ []) (pending_names es),
            append_assoc r.delivered_ids (e.event_id ∷ [])
                (map (λ (x : PendingEvent). x.event_id) es),
          )
          refl

  read_files-sendable :
      (files : List File) (r : DeliveryRun) (p : List PendingEvent)
      → All IsSendable files
      → read_files w files (r, p)
        ≡ (record r { seen = r.seen ++ names files }, p ++ events_in w files)
  unfolding read_files
  read_files-sendable [] r p h = rw (append-nil r.seen, append-nil p) refl
  read_files-sendable (f ∷ files) r p ((e, read, same, taken), later) = rw read (
      read_files-sendable files (record r { seen = r.seen ++ f.name ∷ [] }) (p ++ e ∷ []) later
      ∙ rw
          (
            append_assoc r.seen (f.name ∷ []) (names files),
            append_assoc p (e ∷ []) (events_in w files),
          )
          refl)

  -- What the sorts keep.
  has-insert_pending :
      (name : Text) (e : PendingEvent) (es : List PendingEvent)
      → has name (pending_names (insert_pending w e es)) ≡ has name (pending_names (e ∷ es))
  has-insert_pending name e [] = refl
  has-insert_pending name e (p ∷ ps) = ground (arith, has-insert_pending name e ps)

  has-sort_pending :
      (name : Text) (es : List PendingEvent)
      → has name (pending_names (sort_pending w es)) ≡ has name (pending_names es)
  has-sort_pending name [] = refl
  has-sort_pending name (e ∷ es) =
      has-insert_pending name e (sort_pending w es)
      ∙ ap (λ b. name == e.name || b) (has-sort_pending name es)

  has-insert_file :
      (name : Text) (f : File) (files : List File)
      → has name (names (insert_file f files)) ≡ has name (names (f ∷ files))
  has-insert_file name f [] = refl
  has-insert_file name f (g ∷ gs) = ground (arith, has-insert_file name f gs)

  has-sort_files :
      (name : Text) (files : List File)
      → has name (names (sort_files files)) ≡ has name (names files)
  has-sort_files name [] = refl
  has-sort_files name (f ∷ files) =
      has-insert_file name f (sort_files files)
      ∙ ap (λ b. name == f.name || b) (has-sort_files name files)

  All-insert_pending :
      (e : PendingEvent) (es : List PendingEvent)
      → IsTaken e
      → All IsTaken es
      → All IsTaken (insert_pending w e es)
  All-insert_pending e [] h k = (h, tt)
  All-insert_pending e (p ∷ ps) h (here, later) = elim (Bool-cases (goes_before w e p)) [
    | inl first ↦ rw first (h, (here, later))
    | inr after ↦ rw after (here, All-insert_pending e ps h later)
  ]

  All-sort_pending : (es : List PendingEvent) → All IsTaken es → All IsTaken (sort_pending w es)
  All-sort_pending [] h = tt
  All-sort_pending (e ∷ es) (here, later) =
      All-insert_pending e (sort_pending w es) here (All-sort_pending es later)

  All-insert_file :
      (f : File) (files : List File)
      → IsSendable f
      → All IsSendable files
      → All IsSendable (insert_file f files)
  All-insert_file f [] h k = (h, tt)
  All-insert_file f (g ∷ gs) h (here, later) = elim (Bool-cases (text_before f.name g.name)) [
    | inl first ↦ rw first (h, (here, later))
    | inr after ↦ rw after (here, All-insert_file f gs h later)
  ]

  All-sort_files : (files : List File) → All IsSendable files → All IsSendable (sort_files files)
  All-sort_files [] h = tt
  All-sort_files (f ∷ files) (here, later) =
      All-insert_file f (sort_files files) here (All-sort_files files later)

  events_in-IsTaken : (files : List File) → All IsSendable files → All IsTaken (events_in w files)
  events_in-IsTaken [] h = tt
  events_in-IsTaken (f ∷ files) ((e, read, same, taken), later) =
      rw read (taken, events_in-IsTaken files later)

  events_in-names :
      (files : List File) → All IsSendable files → pending_names (events_in w files) ≡ names files
  events_in-names [] h = refl
  events_in-names (f ∷ files) ((e, read, same, taken), later) = rw read (
      ap (λ n. n ∷ pending_names (events_in w files)) same
      ∙ ap (λ ns. f.name ∷ ns) (events_in-names files later))

  -- Removing every file by name leaves none.
  remove_sent-nil : (es : List PendingEvent) → remove_sent es [] ≡ []
  remove_sent-nil [] = refl
  remove_sent-nil (e ∷ es) = remove_sent-nil es

  remove_sent-all :
      (es : List PendingEvent) (files : List File)
      → ((f : File) → has f.name (names files) ≡ true → has f.name (pending_names es) ≡ true)
      → remove_sent es files ≡ []
  remove_sent-all [] [] h = refl
  remove_sent-all [] (f ∷ files) h = absurd (cc (h f (rw (beq_refl f.name) refl)))
  remove_sent-all (e ∷ es) files h = remove_sent-all es (filter (is_not_named e.name) files) (λ f m.
      let kept : (has f.name (names files) && not (f.name == e.name)) ≡ true =
        sym (has-not_named f.name e.name files) ∙ m in
      let listed = h f (and_left (has f.name (names files)) _ kept) in
      let other = and_right (has f.name (names files)) (not (f.name == e.name)) kept in
      or_without (f.name == e.name) (has f.name (pending_names es)) listed other)

  delivery_pass-taken :
      (config : HookConfig) (dead_dir batch : List File)
      → All IsSendable batch
      → delivery_pass w (some config) (arrive batch (begin_run dead_dir))
        ≡ after_sends
            (sort_pending w (events_in w (sort_files batch)))
            (record (arrive batch (begin_run dead_dir)) { seen = names (sort_files batch) })
  unfolding delivery_pass
  delivery_pass-taken config dead_dir batch h =
      let files : List File = sort_files batch in
      let sendable : All IsSendable files = All-sort_files batch h in
      let es : List PendingEvent = sort_pending w (events_in w files) in
      ap
        (λ (listed : List File).
          read_then_send w (some config)
            (read_files w listed (arrive batch (begin_run dead_dir), [])))
        (filter-true files)
      ∙ ap (read_then_send w (some config))
          (read_files-sendable files (arrive batch (begin_run dead_dir)) [] sendable)
      ∙ send_pending-taken config es _
          (All-sort_pending (events_in w files) (events_in-IsTaken files sendable))

  sent-All :
      (batch : List File)
      → All IsSendable batch
      → remove_sent (sort_pending w (events_in w (sort_files batch))) batch ≡ []
  sent-All batch h = remove_sent-all (sort_pending w (events_in w (sort_files batch))) batch (λ f m.
      has-sort_pending f.name (events_in w (sort_files batch))
      ∙ ap (has f.name) (events_in-names (sort_files batch) (All-sort_files batch h))
      ∙ has-sort_files f.name batch
      ∙ m)

  -- With the hook set up, no files arriving while it runs, and an outbox of which every file holds
  -- an event that is not older than 14 days and that Hermes takes: after the run the outbox is
  -- empty, the events of its files were delivered, each once, none is kept, dead or stuck, and each
  -- was emitted before the next one, or at the same time with a name that does not come after.
  pub deliver_outbox-empties :
      (config : HookConfig) (dead_dir batch : List File)
      → All IsSendable batch
      → let r : DeliveryRun = deliver_outbox w (some config) dead_dir (batch ∷ []) in
        (r.outbox ≡ [])
        × (r.kept_ids ++ r.dead_ids ++ r.stuck_ids ≡ [])
        × (es : List PendingEvent) × Perm es (events_in w batch)
        × IsOrdered w es
        × (r.delivered_ids ≡ map (λ (e : PendingEvent). e.event_id) es)
  unfolding deliver_outbox deliver_batches
  deliver_outbox-empties config dead_dir [] h = (refl, refl, [], Perm.rfl, tt, refl)
  deliver_outbox-empties config dead_dir (f ∷ files) h =
      let batch : List File = f ∷ files in
      rw (delivery_pass-taken config dead_dir batch h) (
        sent-All batch h,
        refl,
        sort_pending w (events_in w (sort_files batch)),
        sorted_events-perm w batch,
        sort_pending-IsOrdered w (events_in w (sort_files batch)),
        refl,
      )
