-- ===== src/Hermes/Delivery/Ordering.antt =====
-- The order of the sends (`pending.sort(…)` of src/hermes/deliver.ts).
use mathlib.Core.List.{Perm}
use mathlib.Core.List.Perm
use scraplify.Base.{
  ◌<◌, ◌≡◌, true, false, Option, none, some, List, [], ◌∷◌, nat_eq, Bool-cases, inl, inr, ◌⊎◌,
  arith,
}
use scraplify.Hermes.Delivery.{
  File, PendingEvent, World, goes_before, insert_pending, sort_pending, insert_file, sort_files,
  text_before, read_pending,
}

abbrev pub add_event : Option PendingEvent → List PendingEvent → List PendingEvent
add_event none es = es
add_event (some e) es = e ∷ es

-- The events that the files hold.
abbrev pub events_in : World → List File → List PendingEvent
events_in w [] = []
events_in w (f ∷ files) = add_event (read_pending w f) (events_in w files)

module _ (w : World) where
  -- Emitted earlier, or at the same time with a name that is not told to come after.
  abbrev pub ComesBefore : PendingEvent → PendingEvent → Type 0
  ComesBefore a b =
      (a.emitted_at_ms < b.emitted_at_ms)
      ⊎ ((a.emitted_at_ms ≡ b.emitted_at_ms)
          × ((w.locale_before a.name b.name ≡ true) ⊎ (w.locale_before b.name a.name ≡ false)))

  abbrev pub IsOrdered : List PendingEvent → Type 0
  IsOrdered [] = Unit
  IsOrdered (a ∷ []) = Unit
  IsOrdered (a ∷ b ∷ es) = ComesBefore a b × IsOrdered (b ∷ es)

  ComesBefore-goes_before : (a b : PendingEvent) → goes_before w a b ≡ true → ComesBefore a b
  ComesBefore-goes_before a b h = ground arith

  ComesBefore-not_before : (a b : PendingEvent) → goes_before w b a ≡ false → ComesBefore a b
  ComesBefore-not_before a b h = ground arith

  IsOrdered-insert_after :
      (e p : PendingEvent) (es : List PendingEvent)
      → goes_before w e p ≡ false
      → IsOrdered (p ∷ es)
      → IsOrdered (p ∷ insert_pending w e es)
  IsOrdered-insert_after e p [] after h = (ComesBefore-not_before p e after, tt)
  IsOrdered-insert_after e p (q ∷ es) after (here, later) = elim (Bool-cases (goes_before w e q)) [
    | inl first ↦
        rw first (ComesBefore-not_before p e after, (ComesBefore-goes_before e q first, later))
    | inr last ↦ rw last (here, IsOrdered-insert_after e q es last later)
  ]

  IsOrdered-insert_pending :
      (e : PendingEvent) (es : List PendingEvent) → IsOrdered es → IsOrdered (insert_pending w e es)
  IsOrdered-insert_pending e [] h = tt
  IsOrdered-insert_pending e (p ∷ es) h = elim (Bool-cases (goes_before w e p)) [
    | inl first ↦ rw first (ComesBefore-goes_before e p first, h)
    | inr last ↦ rw last (IsOrdered-insert_after e p es last h)
  ]

  pub sort_pending-IsOrdered : (es : List PendingEvent) → IsOrdered (sort_pending w es)
  sort_pending-IsOrdered [] = tt
  sort_pending-IsOrdered (e ∷ es) =
      IsOrdered-insert_pending e (sort_pending w es) (sort_pending-IsOrdered es)

  insert_pending-perm :
      (e : PendingEvent) (es : List PendingEvent) → Perm (insert_pending w e es) (e ∷ es)
  insert_pending-perm e [] = Perm.rfl
  insert_pending-perm e (p ∷ es) = elim (Bool-cases (goes_before w e p)) [
    | inl first ↦ rw first Perm.rfl
    | inr last ↦ rw last (Perm.trans (Perm.cons p (insert_pending-perm e es)) (Perm.swap e p es))
  ]

  sort_pending-perm : (es : List PendingEvent) → Perm (sort_pending w es) es
  sort_pending-perm [] = Perm.rfl
  sort_pending-perm (e ∷ es) =
      Perm.trans (insert_pending-perm e (sort_pending w es)) (Perm.cons e (sort_pending-perm es))

  add_event-perm :
      (o : Option PendingEvent) (es fs : List PendingEvent)
      → Perm es fs
      → Perm (add_event o es) (add_event o fs)
  add_event-perm none es fs h = h
  add_event-perm (some e) es fs h = Perm.cons e h

  add_event-swap :
      (o p : Option PendingEvent) (es : List PendingEvent)
      → Perm (add_event p (add_event o es)) (add_event o (add_event p es))
  add_event-swap none p es = Perm.rfl
  add_event-swap (some e) none es = Perm.rfl
  add_event-swap (some e) (some f) es = Perm.swap e f es

  insert_file-perm :
      (f : File) (files : List File)
      → Perm (events_in w (insert_file f files)) (events_in w (f ∷ files))
  insert_file-perm f [] = Perm.rfl
  insert_file-perm f (g ∷ files) = elim (Bool-cases (text_before f.name g.name)) [
    | inl first ↦ rw first Perm.rfl
    | inr last ↦ rw last (
        Perm.trans (add_event-perm (read_pending w g) _ _ (insert_file-perm f files))
          (add_event-swap (read_pending w f) (read_pending w g) (events_in w files)))
  ]

  sort_files-perm : (files : List File) → Perm (events_in w (sort_files files)) (events_in w files)
  sort_files-perm [] = Perm.rfl
  sort_files-perm (f ∷ files) =
      Perm.trans (insert_file-perm f (sort_files files))
        (add_event-perm (read_pending w f) _ _ (sort_files-perm files))

  -- The events that are sent are those of the files.
  pub sorted_events-perm :
      (files : List File)
      → Perm (sort_pending w (events_in w (sort_files files))) (events_in w files)
  sorted_events-perm files =
      Perm.trans (sort_pending-perm (events_in w (sort_files files))) (sort_files-perm files)
