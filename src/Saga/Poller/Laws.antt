-- ===== src/Saga/Poller/Laws.antt =====
-- The notification channels of saga/poller.go: each holds one result until its reader takes it.
use nsp_platform.Base.{
  String, ◌≡◌, refl, ap, true, false, [], ◌∷◌, Option, none, some, str_eq, Bool-cases, inl, inr,
}
use nsp_platform.Saga.Runtime.{PollResult}
use nsp_platform.Saga.Poller.{Channels, send_to, has_channel}

-- What the channel of a transaction holds: nothing to read from where there is no channel.
abbrev pub held : String → Channels → Option PollResult
held id [] = none
held id ((k, c) ∷ chans) =
    let rest = held id chans in elim (str_eq k id) [ true ↦ c | false ↦ rest ]

-- A second result that is sent to a transaction whose first has not been read is dropped: the
-- coordinator wakes up with the first.
pub send_to-send_to :
    (id : String) (first second : PollResult) (chans : Channels)
    → send_to id second (send_to id first chans) ≡ send_to id first chans
unfolding send_to
send_to-send_to id first second [] = refl
send_to-send_to id first second ((k, none) ∷ chans) = elim (Bool-cases (str_eq k id)) [
  | inl e ↦ rw (e, send_to, e) refl
  | inr e ↦ rw (e, send_to, e) (ap (◌∷◌ (k, none)) (send_to-send_to id first second chans))
]
send_to-send_to id first second ((k, some c) ∷ chans) = elim (Bool-cases (str_eq k id)) [
  | inl e ↦ rw (e, send_to, e) refl
  | inr e ↦ rw (e, send_to, e) (ap (◌∷◌ (k, some c)) (send_to-send_to id first second chans))
]

-- A result that is sent arrives if there is a channel to the transaction with nothing in it.
pub held-send_to :
    (id : String) (result : PollResult) (chans : Channels)
    → has_channel id chans ≡ true
    → held id chans ≡ none
    → held id (send_to id result chans) ≡ some result
unfolding send_to
held-send_to id result [] there empty = cc there
held-send_to id result ((k, none) ∷ chans) there empty = elim (Bool-cases (str_eq k id)) [
  | inl e ↦ rw (e, send_to, held, e) refl
  | inr e ↦
      rw (e, send_to, held, e)
        (held-send_to id result chans (rw (e, has_channel) at there) (rw (e, held) at empty))
]
held-send_to id result ((k, some c) ∷ chans) there empty = elim (Bool-cases (str_eq k id)) [
  | inl e ↦ cc (rw (e, held) at empty)
  | inr e ↦
      rw (e, send_to, held, e)
        (held-send_to id result chans (rw (e, has_channel) at there) (rw (e, held) at empty))
]
