-- ===== src/Hermes/Delivery/Accounts.antt =====
-- What a run of the sender reports (src/hermes/deliver.ts): each file that it looked at, once.
use scraplify.Base.{
  ℕ, suc, ◌+◌, ◌≡◌, refl, ap, ◌∙◌, Bool, true, false, ◌&&◌, Option, none, some, List, [], ◌∷◌, ◌++◌,
  ltb, nat_eq, list_eq, if◌then◌else◌, length, length-append, length-map, filter, map, has, Text,
  ◌-◌, Bool-cases, inl, inr, arith,
}
use scraplify.Hermes.Hook.{HookConfig, Verdict, delivered, retry, dead}
use scraplify.Hermes.Delivery.{
  File, PendingEvent, World, DeliveryRun, bury, max_event_age_ms, read_pending, sort_or_bury,
  read_files, insert_pending, sort_pending, Sending, go_on, stop, after_verdict, when_fresh,
  send_event, and_then, send_pending, sort_files, names, is_nil, is_new_file, delivery_pass, arrive,
  begin_run, deliver_batches, deliver_outbox,
}

abbrev pub reported : DeliveryRun → ℕ
reported r = length r.delivered_ids + length r.kept_ids + length r.dead_ids + length r.stuck_ids

module _ (w : World) where
  bury-reported :
      (name event_id : Text) (r : DeliveryRun)
      → (reported (bury w name event_id r) ≡ suc (reported r))
        × ((bury w name event_id r).seen ≡ r.seen)
  unfolding bury
  bury-reported name event_id r = elim (Bool-cases (w.can_move name && has name (names r.outbox))) [
    | inl e ↦ rw (e, length-append r.dead_ids (event_id ∷ [])) (omega arith, refl)
    | inr e ↦ rw (e, length-append r.stuck_ids (event_id ∷ [])) (omega arith, refl)
  ]

  -- What a step reports: its own event, and at the end those that wait too.
  abbrev Reports : ℕ → DeliveryRun → Sending → Type 0
  Reports waiting r (go_on s) = (reported s ≡ suc (reported r)) × (s.seen ≡ r.seen)
  Reports waiting r (stop s) = (reported s ≡ suc (reported r) + waiting) × (s.seen ≡ r.seen)

  Reports-after_verdict :
      (e : PendingEvent) (waiting : List PendingEvent) (r : DeliveryRun) (v : Verdict)
      → Reports (length waiting) r (after_verdict w e waiting r v)
  Reports-after_verdict e waiting r delivered =
      rw (length-append r.delivered_ids (e.event_id ∷ [])) (omega arith, refl)
  Reports-after_verdict e waiting r dead = bury-reported e.name e.event_id r
  Reports-after_verdict e waiting r retry =
      rw
        (
          length-append r.kept_ids (map (λ (p : PendingEvent). p.event_id) (e ∷ waiting)),
          length-map (λ (p : PendingEvent). p.event_id) waiting,
        )
        (omega arith, refl)

  Reports-when_fresh :
      (config : Option HookConfig) (e : PendingEvent) (waiting : List PendingEvent)
      (r : DeliveryRun)
      → Reports (length waiting) r (when_fresh w config e waiting r)
  Reports-when_fresh none e waiting r =
      rw (length-append r.kept_ids (e.event_id ∷ [])) (omega arith, refl)
  Reports-when_fresh (some config) e waiting r =
      Reports-after_verdict e waiting (record r { sent = r.sent ++ e.name ∷ [] }) _

  Reports-send_event :
      (config : Option HookConfig) (e : PendingEvent) (waiting : List PendingEvent)
      (r : DeliveryRun)
      → Reports (length waiting) r (send_event w config e waiting r)
  unfolding send_event
  Reports-send_event config e waiting r =
      elim (Bool-cases (ltb max_event_age_ms (w.now e.name - e.emitted_at_ms))) [
        | inl old ↦ rw old (bury-reported e.name e.event_id r)
        | inr recent ↦ rw recent (Reports-when_fresh config e waiting r)
      ]

  -- A part of a run that looks at n more files and reports m more events.
  abbrev Adds : ℕ → ℕ → DeliveryRun → DeliveryRun → Type 0
  Adds n m r s = (reported s ≡ reported r + m) × (length s.seen ≡ length r.seen + n)

  Adds-and_then :
      (n : ℕ) (r : DeliveryRun) (f : DeliveryRun → DeliveryRun) (s : Sending)
      → Reports n r s
      → ((t : DeliveryRun) → Adds 0 n t (f t))
      → Adds 0 (suc n) r (and_then f s)
  Adds-and_then n r f (go_on s) (count, seen) k =
      let (more, same) = k s in (omega arith, same ∙ ap (λ xs. length xs + 0) seen)
  Adds-and_then n r f (stop s) (count, seen) k = (omega arith, ap length seen ∙ omega arith)

  Adds-send_pending :
      (config : Option HookConfig) (es : List PendingEvent) (r : DeliveryRun)
      → Adds 0 (length es) r (send_pending w config es r)
  unfolding send_pending
  Adds-send_pending config [] r = (omega arith, omega arith)
  Adds-send_pending config (e ∷ es) r =
      Adds-and_then (length es) r (send_pending w config es) (send_event w config e es r)
        (Reports-send_event config e es r) (Adds-send_pending config es)

  length-insert_pending :
      (e : PendingEvent) (es : List PendingEvent) → length (insert_pending w e es) ≡ suc (length es)
  length-insert_pending e [] = refl
  length-insert_pending e (p ∷ ps) = ground (arith, length-insert_pending e ps)

  length-sort_pending : (es : List PendingEvent) → length (sort_pending w es) ≡ length es
  length-sort_pending [] = refl
  length-sort_pending (e ∷ es) =
      length-insert_pending e (sort_pending w es) ∙ ap suc (length-sort_pending es)

  -- Each file that is read is reported at once or becomes pending.
  abbrev Sorts : ℕ → DeliveryRun × List PendingEvent → DeliveryRun × List PendingEvent → Type 0
  Sorts n (r, p) (s, q) =
      (reported s + length q ≡ reported r + length p + n) × (length s.seen ≡ length r.seen + n)

  Sorts-sort_or_bury :
      (f : File) (o : Option PendingEvent) (r : DeliveryRun) (p : List PendingEvent)
      → Sorts 1 (r, p) (sort_or_bury w f o (record r { seen = r.seen ++ f.name ∷ [] }, p))
  Sorts-sort_or_bury f none r p =
      let (count, seen) = bury-reported f.name f.name (record r { seen = r.seen ++ f.name ∷ [] }) in
      (omega arith, ap length seen ∙ length-append r.seen (f.name ∷ []))
  Sorts-sort_or_bury f (some e) r p =
      (rw (length-append p (e ∷ [])) (omega arith), length-append r.seen (f.name ∷ []))

  Sorts-read_files :
      (files : List File) (r : DeliveryRun) (p : List PendingEvent)
      → Sorts (length files) (r, p) (read_files w files (r, p))
  unfolding read_files
  Sorts-read_files [] r p = (omega arith, omega arith)
  Sorts-read_files (f ∷ files) r p =
      let one : DeliveryRun × List PendingEvent =
        sort_or_bury w f (read_pending w f) (record r { seen = r.seen ++ f.name ∷ [] }, p) in
      let (count, seen) = Sorts-sort_or_bury f (read_pending w f) r p in
      let (more, rest) = Sorts-read_files files one.0 one.1 in (omega arith, omega arith)

  abbrev pub IsAccounted : DeliveryRun → Type 0
  IsAccounted r = reported r ≡ length r.seen

  IsAccounted-delivery_pass :
      (config : Option HookConfig) (r : DeliveryRun)
      → IsAccounted r
      → IsAccounted (delivery_pass w config r)
  unfolding delivery_pass
  IsAccounted-delivery_pass config r h =
      let files : List File = filter (is_new_file r) (sort_files r.outbox) in
      let read : DeliveryRun × List PendingEvent = read_files w files (r, []) in
      let (count, seen) = Sorts-read_files files r [] in
      let (more, same) = Adds-send_pending config (sort_pending w read.1) read.0 in
      let sorted = length-sort_pending read.1 in omega arith

  IsAccounted-if :
      (b : Bool) (x y : DeliveryRun)
      → IsAccounted x
      → IsAccounted y
      → IsAccounted (if b then x else y)
  IsAccounted-if true x y h k = h
  IsAccounted-if false x y h k = k

  IsAccounted-deliver_batches :
      (config : Option HookConfig) (batches : List (List File)) (r : DeliveryRun)
      → IsAccounted r
      → IsAccounted (deliver_batches w config batches r)
  unfolding deliver_batches
  IsAccounted-deliver_batches config [] r h = h
  IsAccounted-deliver_batches config (batch ∷ batches) r h =
      let s : DeliveryRun = arrive batch r in
      let rest : DeliveryRun = deliver_batches w config batches (delivery_pass w config s) in
      let ended : Bool = is_nil (filter (is_new_file r) s.outbox) in
      IsAccounted-if r.unreachable r (if ended then s else rest) h (
        IsAccounted-if ended s rest h (
          IsAccounted-deliver_batches config batches (delivery_pass w config s)
            (IsAccounted-delivery_pass config s h)))

  -- At the end of a run, the events that it reports as delivered, kept, dead or stuck are together
  -- as many as the files that it looked at.
  pub deliver_outbox-IsAccounted :
      (config : Option HookConfig) (dead_dir : List File) (batches : List (List File))
      → IsAccounted (deliver_outbox w config dead_dir batches)
  unfolding deliver_outbox
  deliver_outbox-IsAccounted config dead_dir batches =
      IsAccounted-deliver_batches config batches (begin_run dead_dir) refl
