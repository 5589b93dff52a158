-- ===== src/Net/Poller.antt =====
-- The class EPollPoller of xx_chat_server/src/net/poller_epoll.h and poller_epoll.cpp.
-- A channel is known by its address; the poller reads its descriptor, events and index. `none` is a
-- failed assert. The calls of epoll_ctl are recorded in `epoll`, the newest first.
use xx_chat.Base.{
  ℕ, ◌*◌, Bool, true, false, not, ◌||◌, Option, some, List, [], ◌∷◌, length, leb, ◌==◌,
  if◌then◌else◌, lookup, put, erase,
}
use xx_chat.Base.Options.{◌>>=◌, ◌>>◌, assert, found}
use xx_chat.Net.Channel.{Events}

-- kNew, kAdded and kDeleted.
pub data Index : Type 0 where
  fresh added deleted : Index

pub record Polled : Type 0 where
  pub fd : ℕ
  pub events : Events
  pub index : Index

pub data EpollCtl : Type 0 where
  ctl_add ctl_mod ctl_del : ℕ → Events → EpollCtl

pub record EPollPoller : Type 0 where
  pub channels : List (ℕ × ℕ)
  pub events_size : ℕ
  pub epoll : List EpollCtl

unfoldable pub new_poller : EPollPoller
new_poller = record { channels = []; events_size = 16; epoll = [] }

abbrev pub is_none_event : Polled → Bool
is_none_event c = not (c.events.reading || c.events.writing)

abbrev pub is_fresh : Index → Bool
is_fresh fresh = true
is_fresh _ = false

abbrev pub is_added : Index → Bool
is_added added = true
is_added _ = false

-- Whether the table has this channel for the descriptor.
abbrev pub has_channel : EPollPoller → ℕ → ℕ → Bool
has_channel p fd a = found (lookup fd p.channels) false (λ b. a == b)

abbrev pub is_missing : EPollPoller → ℕ → Bool
is_missing p fd = found (lookup fd p.channels) true (λ b. false)

abbrev pub ctl : EPollPoller → EpollCtl → EPollPoller
ctl p k = record p { epoll = k ∷ p.epoll }

-- A channel that is new or was taken out of epoll.
unfoldable pub add_channel : EPollPoller → ℕ → Polled → Option (EPollPoller × Polled)
add_channel p a c = do
  assert (if is_fresh c.index then is_missing p c.fd else has_channel p c.fd a)
  let p' : EPollPoller =
      if is_fresh c.index then record p { channels = put c.fd a p.channels } else p
  some (ctl p' (ctl_add c.fd c.events), record c { index = added })

unfoldable pub update_channel : EPollPoller → ℕ → Polled → Option (EPollPoller × Polled)
unfolding add_channel
update_channel p a c = if not (is_added c.index) then add_channel p a c else do
  assert (has_channel p c.fd a)
  some (
      if is_none_event c
      then (ctl p (ctl_del c.fd c.events), record c { index = deleted })
      else (ctl p (ctl_mod c.fd c.events), c))

unfoldable pub remove_channel : EPollPoller → ℕ → Polled → Option (EPollPoller × Polled)
remove_channel p a c = do
  assert (has_channel p c.fd a)
  assert (is_none_event c)
  assert (not (is_fresh c.index))
  let p' : EPollPoller = record p { channels = erase c.fd p.channels }
  some (if is_added c.index then ctl p' (ctl_del c.fd c.events) else p', record c { index = fresh })

-- An event of epoll_wait: the channel's address and descriptor, and the bits.
pub record Ready : Type 0 where
  pub channel : ℕ
  pub fd : ℕ
  pub revents : ℕ

unfoldable pub fill_active_channels : EPollPoller → List Ready → Option (List (ℕ × ℕ))
fill_active_channels p [] = some []
fill_active_channels p (e ∷ es) = do
  assert (has_channel p e.fd e.channel)
  rest ← fill_active_channels p es
  some ((e.channel, e.revents) ∷ rest)

-- The active channels with their events. A full array is doubled.
unfoldable pub poll : EPollPoller → List Ready → Option (EPollPoller × List (ℕ × ℕ))
unfolding fill_active_channels
poll p ready = do
  assert (leb (length ready) p.events_size)
  active ← fill_active_channels p ready
  some (
    if length ready == p.events_size then record p { events_size = p.events_size * 2 } else p,
    active,
  )
