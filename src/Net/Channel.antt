-- ===== src/Net/Channel.antt =====
-- The class Channel of xx_chat_server/src/net/channel.h and channel.cpp: what a descriptor waits
-- for, and which callbacks an event calls.
-- `none` is a failed assert. The calls of the event loop are recorded in `loop_calls`, the newest
-- first. Texts for the log are left out.
use xx_chat.Base.{
  ℕ, ◌/◌, ◌%◌, Bool, true, false, not, ◌&&◌, ◌||◌, Option, none, some, List, [], ◌∷◌, ◌==◌,
  if◌then◌else◌,
}
use xx_chat.Base.Options.{◌>>=◌, ◌>>◌, assert}

-- `events_`: kReadEvent and kWriteEvent, the only bits it is given.
pub record Events : Type 0 where
  pub reading : Bool
  pub writing : Bool

pub data LoopCall : Type 0 where
  update_channel : Events → LoopCall
  remove_channel : LoopCall

pub record Channel : Type 0 where
  pub fd : ℕ
  pub events : Events
  pub tied : Bool
  pub added_to_loop : Bool
  pub loop_calls : List LoopCall

abbrev pub none_event : Events
none_event = record { reading = false; writing = false }

unfoldable pub new_channel : ℕ → Channel
new_channel fd = record {
  fd = fd;
  events = none_event;
  tied = false;
  added_to_loop = false;
  loop_calls = [];
}

abbrev pub is_none_event : Channel → Bool
is_none_event c = not (c.events.reading || c.events.writing)

abbrev pub is_writing : Channel → Bool
is_writing c = c.events.writing

abbrev pub is_reading : Channel → Bool
is_reading c = c.events.reading

abbrev pub update : Channel → Channel
update c = record c { added_to_loop = true; loop_calls = update_channel c.events ∷ c.loop_calls }

abbrev pub set_events : Channel → Events → Channel
set_events c e = update (record c { events = e })

abbrev pub enable_reading : Channel → Channel
enable_reading c = set_events c (record { reading = true; writing = c.events.writing })

abbrev pub disable_reading : Channel → Channel
disable_reading c = set_events c (record { reading = false; writing = c.events.writing })

abbrev pub enable_writing : Channel → Channel
enable_writing c = set_events c (record { reading = c.events.reading; writing = true })

abbrev pub disable_writing : Channel → Channel
disable_writing c = set_events c (record { reading = c.events.reading; writing = false })

abbrev pub disable_all : Channel → Channel
disable_all c = set_events c none_event

abbrev pub tie : Channel → Channel
tie c = record c { tied = true }

unfoldable pub remove : Channel → Option Channel
remove c = do
  assert (is_none_event c)
  some (record c { added_to_loop = false; loop_calls = remove_channel ∷ c.loop_calls })

-- The bits of poll.h that `revents_` can have, and a test of one.
abbrev pub poll_in : ℕ
poll_in = 1

abbrev pub poll_pri : ℕ
poll_pri = 2

abbrev pub poll_out : ℕ
poll_out = 4

abbrev pub poll_err : ℕ
poll_err = 8

abbrev pub poll_hup : ℕ
poll_hup = 16

abbrev pub poll_nval : ℕ
poll_nval = 32

abbrev pub poll_rdhup : ℕ
poll_rdhup = 8192

abbrev pub has : ℕ → ℕ → Bool
has revents bit = (revents / bit) % 2 == 1

-- The callbacks that are set, on a state they change.
pub record Callbacks {ℓ} (S : Type ℓ) : Type ℓ where
  pub read_callback : Option (S → Option S)
  pub write_callback : Option (S → Option S)
  pub close_callback : Option (S → Option S)
  pub error_callback : Option (S → Option S)

-- A callback that is not set is skipped.
abbrev pub call {ℓ} : {S : Type ℓ} → Bool → Option (S → Option S) → S → Option S
call false f s = some s
call true none s = some s
call true (some f) s = f s

unfoldable pub handle_event_with_guard {ℓ} : {S : Type ℓ} → Callbacks S → ℕ → S → Option S
handle_event_with_guard k revents s = do
  s1 ← call (has revents poll_hup && not (has revents poll_in)) k.close_callback s
  s2 ← call (has revents poll_err || has revents poll_nval) k.error_callback s1
  s3 ←
      call (has revents poll_in || has revents poll_pri || has revents poll_rdhup) k.read_callback
        s2
  call (has revents poll_out) k.write_callback s3

-- `alive`: whether the owner that the channel is tied to still exists.
unfoldable pub handle_event {ℓ} : {S : Type ℓ} → Channel → Callbacks S → Bool → ℕ → S → Option S
handle_event c k alive revents s =
    if c.tied
    then (if alive then handle_event_with_guard k revents s else some s)
    else handle_event_with_guard k revents s
