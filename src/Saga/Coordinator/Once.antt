-- ===== src/Saga/Coordinator/Once.antt =====
-- Submit and the workers of saga/coordinator.go in any order: where a transaction stands.
use nsp_platform.Base.{
  ℕ, ◌+◌, ◌≤◌, ltb, String, Bool, true, false, List, [], ◌∷◌, ◌++◌, ◌≡◌, refl, ap, ◌∙◌, arith,
  str_eq, str_eq→eq, str_eq_refl, Bool-cases, inl, inr, if-holds,
}
use nsp_platform.Base.Lists.{any_row, delete_where, length}
use nsp_platform.Saga.Runtime.{World}
use nsp_platform.Saga.Coordinator.Drive.{mark, enqueue, queue_capacity, submit, unmark_unless}
use nsp_platform.Saga.Coordinator.Moves.{
  Threads, Move, begins, sends, gives_up, ends, takes, leave, sent, taken, move, moves, started,
  idle,
}

abbrev bit : Bool → ℕ
bit true = 1
bit false = 0

abbrev pub occurrences : String → List String → ℕ
occurrences x [] = 0
occurrences x (y ∷ ys) = bit (str_eq x y) + occurrences x ys

-- The transaction stands at as many places as it is marked active, which is at most once.
abbrev pub IsCounted : String → Threads → Type 0
IsCounted x s =
    (occurrences x s.marked
        + occurrences x s.full
        + occurrences x s.world.task_queue
        + occurrences x s.driven
      ≡ occurrences x s.world.active_tx)
    × (occurrences x s.world.active_tx ≤ 1)

occurrences-snoc :
    (x id : String) (ys : List String)
    → occurrences x (ys ++ id ∷ []) ≡ bit (str_eq x id) + occurrences x ys
occurrences-snoc x id [] = refl
occurrences-snoc x id (y ∷ ys) = omega (arith, occurrences-snoc x id ys)

occurrences-leave :
    (x id : String) (ys : List String)
    → any_row (str_eq id) ys ≡ true
    → bit (str_eq x id) + occurrences x (leave id ys) ≡ occurrences x ys
occurrences-leave x id [] h = cc h
occurrences-leave x id (y ∷ ys) h = elim (Bool-cases (str_eq id y)) [
  | inl e ↦ rw (leave, e) (rw (str_eq→eq id y e) refl)
  | inr e ↦ rw (leave, e) (omega (arith, occurrences-leave x id ys (rw (any_row, e) at h)))
]

occurrences-absent :
    (id : String) (ys : List String) → any_row (str_eq id) ys ≡ false → occurrences id ys ≡ 0
occurrences-absent id [] h = refl
occurrences-absent id (y ∷ ys) h = elim (Bool-cases (str_eq id y)) [
  | inl e ↦ cc (rw (any_row, e) at h)
  | inr e ↦ rw e (omega (arith, occurrences-absent id ys (rw (any_row, e) at h)))
]

occurrences-delete_same :
    (id : String) (ys : List String) → occurrences id (delete_where (str_eq id) ys) ≡ 0
occurrences-delete_same id [] = refl
occurrences-delete_same id (y ∷ ys) = elim (Bool-cases (str_eq id y)) [
  | inl e ↦ rw (delete_where, e) (occurrences-delete_same id ys)
  | inr e ↦ rw (delete_where, e) (rw e (omega (arith, occurrences-delete_same id ys)))
]

occurrences-delete_other :
    (x id : String) (ys : List String)
    → str_eq x id ≡ false
    → occurrences x (delete_where (str_eq id) ys) ≡ occurrences x ys
occurrences-delete_other x id [] h = refl
occurrences-delete_other x id (y ∷ ys) h = elim (Bool-cases (str_eq id y)) [
  | inl e ↦
      rw (delete_where, e)
        (rw⁻¹ (str_eq→eq id y e) (rw h (omega (arith, occurrences-delete_other x id ys h))))
  | inr e ↦ rw (delete_where, e) (omega (arith, occurrences-delete_other x id ys h))
]

-- A goroutine leaves its place and takes the mark of its transaction back.
unmarked :
    (x id : String) (left active : List String)
    → occurrences x left ≤ occurrences x active
    → occurrences x active ≤ 1
    → any_row (str_eq id) left ≡ true
    → (occurrences x left + occurrences x (delete_where (str_eq id) active)
        ≡ occurrences x (leave id left) + occurrences x active)
      × (occurrences x (delete_where (str_eq id) active) ≤ 1)
unmarked x id left active h k there = elim (Bool-cases (str_eq x id)) [
  | inl e ↦
      let l = rw e at (occurrences-leave x id left there) in
      let d =
        ap (λ y. occurrences y (delete_where (str_eq id) active)) (str_eq→eq x id e)
        ∙ occurrences-delete_same id active in
      (omega (arith, l, d, h, k), omega (arith, d))
  | inr e ↦
      let l = rw e at (occurrences-leave x id left there) in
      let d = occurrences-delete_other x id active e in
      (omega (arith, l, d, h, k), omega (arith, d, k))
]

began-IsCounted :
    (x id : String) (s : Threads)
    → any_row (str_eq id) s.world.active_tx ≡ false
    → IsCounted x s
    → IsCounted x (record s { world = mark id s.world; marked = id ∷ s.marked })
began-IsCounted x id s e h = elim (Bool-cases (str_eq x id)) [
  | inl f ↦
      let a =
        ap (λ y. occurrences y s.world.active_tx) (str_eq→eq x id f)
        ∙ occurrences-absent id s.world.active_tx e in
      rw f (omega (arith, h.0, a), omega (arith, a))
  | inr f ↦ rw f (omega (arith, h.0), omega (arith, h.1))
]

sent-IsCounted :
    (x id : String) (s : Threads)
    → any_row (str_eq id) s.marked ≡ true
    → IsCounted x s
    → IsCounted x (sent id s (enqueue id s.world))
sent-IsCounted x id s there h =
    let l = occurrences-leave x id s.marked there in
    if-holds (λ r. IsCounted x (sent id s r)) (ltb (length s.world.task_queue) queue_capacity) _ _
      (λ e. (omega (arith, l, h.0, occurrences-snoc x id s.world.task_queue), h.1))
      (λ e. (omega (arith, l, h.0), h.1))

taken-IsCounted :
    (x : String) (s : Threads) (queue : List String)
    → (occurrences x s.marked + occurrences x s.full + occurrences x queue + occurrences x s.driven
        ≡ occurrences x s.world.active_tx)
    → IsCounted x s
    → IsCounted x (taken s queue)
taken-IsCounted x s [] e h = h
taken-IsCounted x s (id ∷ rest) e h = (omega (arith, e), h.1)

move-IsCounted : (x : String) (m : Move) (s : Threads) → IsCounted x s → IsCounted x (move m s)
unfolding move
move-IsCounted x (begins id) s h =
    if-holds (IsCounted x) (any_row (str_eq id) s.world.active_tx) s _ (λ e. h)
      (λ e. began-IsCounted x id s e h)
move-IsCounted x (sends id) s h =
    if-holds (IsCounted x) (any_row (str_eq id) s.marked) _ s (λ e. sent-IsCounted x id s e h)
      (λ e. h)
move-IsCounted x (gives_up id) s h =
    if-holds (IsCounted x) (any_row (str_eq id) s.full) _ s
      (λ e.
        let u = unmarked x id s.full s.world.active_tx (omega (arith, h.0)) h.1 e in
        (omega (arith, u.0, h.0), u.1))
      (λ e. h)
move-IsCounted x takes s h = taken-IsCounted x s s.world.task_queue h.0 h
move-IsCounted x (ends id) s h =
    if-holds (IsCounted x) (any_row (str_eq id) s.driven) _ s
      (λ e.
        let u = unmarked x id s.driven s.world.active_tx (omega (arith, h.0)) h.1 e in
        (omega (arith, u.0, h.0), u.1))
      (λ e. h)

moves-IsCounted :
    (x : String) (ms : List Move) (s : Threads) → IsCounted x s → IsCounted x (moves ms s)
moves-IsCounted x [] s h = h
moves-IsCounted x (m ∷ ms) s h = moves-IsCounted x ms (move m s) (move-IsCounted x m s h)

abbrev waiting : String → World → Threads
waiting id w = record { world = mark id w; marked = id ∷ []; full = []; driven = [] }

begins-idle :
    (id : String) (w : World)
    → any_row (str_eq id) w.active_tx ≡ false
    → move (begins id) (idle w) ≡ waiting id w
unfolding move
begins-idle id w e = rw e refl

any_row-itself : (id : String) → any_row (str_eq id) (id ∷ []) ≡ true
any_row-itself id = rw (any_row, str_eq_refl id) refl

sends-waiting :
    (id : String) (w : World)
    → move (sends id) (waiting id w) ≡ sent id (waiting id w) (enqueue id (mark id w))
unfolding move
sends-waiting id w = rw (any_row-itself id) refl

gives_up-sent :
    (id : String) (s : Threads) (r : Bool × World)
    → s.full ≡ []
    → (move (gives_up id) (sent id s r)).world ≡ (unmark_unless id r).1
unfolding move
gives_up-sent id s (true, w) e = rw e refl
gives_up-sent id s (false, w) e = rw (e, any_row-itself id) refl

-- The three steps of one caller without others between them are Submit.
moves-submit :
    (id : String) (w : World)
    → (moves (begins id ∷ sends id ∷ gives_up id ∷ []) (idle w)).world ≡ (submit id w).1
unfolding submit move
moves-submit id w = elim (Bool-cases (any_row (str_eq id) w.active_tx)) [
  | inl e ↦ rw e refl
  | inr e ↦
      ap (λ s. (move (gives_up id) (move (sends id) s)).world) (begins-idle id w e)
      ∙ ap (λ s. (move (gives_up id) s).world) (sends-waiting id w)
      ∙ gives_up-sent id (waiting id w) (enqueue id (mark id w)) refl
      ∙ rw e refl
]

-- In every interleaving of the steps of Submit, of the workers that take from the queue, and of the
-- ends of driveTransaction, a transaction is marked active exactly while it stands with a caller of
-- Submit, in the queue, or with a worker, and it stands at one of these places and once only, so that
-- no two workers of the instance drive it at the same time. The steps of one caller without others
-- between them are Submit.
pub moves-once :
    (x : String) (ms : List Move) (w : World)
    → IsCounted x (moves ms (started w))
      × ((moves (begins x ∷ sends x ∷ gives_up x ∷ []) (idle w)).world ≡ (submit x w).1)
moves-once x ms w = (moves-IsCounted x ms (started w) (refl, omega arith), moves-submit x w)
