-- ===== src/Host.antt =====
-- The host and the clock as a run meets them: the Host interface of internal/refreshquota/types.go,
-- and the time and context packages. `W` is the state of all that is outside the run: the host, the
-- files, the clock, the contexts. What a call answers and the state it leaves depend on the state
-- it finds, so that everything that happens in between is part of the calls.
pub mod Saves
pub mod Sample
use cpa_auto_refresh_quota.Base.{ℕ, String, Bool, Option, List, Result}
use cpa_auto_refresh_quota.Base.Int.{ℤ}
use cpa_auto_refresh_quota.Auths.{Auth}
use cpa_auto_refresh_quota.Pins.Execute.{PinnedModelRequest, ModelResponse}

pub record AuthFile : Type 0 where
  pub auth_index : String
  pub name : String
  pub path : String
  pub json : String
  pub expected_sha256 : String

-- What SaveAuthFile answers: nil, an error that is ErrAuthFileChanged, or another one.
pub data Saved : Type 0 where
  is_saved file_changed not_saved : Saved

-- A context is a number. Where the code only asks whether there is an error, `none` stands for it.
pub record Host (W : Type 0) : Type 0 where
  pub list_auths : ℕ → W → Option (List Auth) × W
  pub get_runtime_auth : ℕ → String → W → Option Auth × W
  pub get_auth_file : ℕ → String → W → Option AuthFile × W
  pub save_auth_file : ℕ → AuthFile → W → Saved × W
  pub execute_pinned : ℕ → PinnedModelRequest → W → Result String ModelResponse × W
  -- time.Now
  pub now : W → ℕ
  -- `ctx.Err() != nil`, context.Background, context.WithTimeout with what it makes, and its cancel
  pub is_done : ℕ → W → Bool
  pub background : ℕ
  pub with_timeout : ℕ → ℤ → W → ℕ × W
  pub cancel : ℕ → W → W
  -- a select on `ctx.Done()` and a timer of some nanoseconds: whether the timer came first
  pub timer_fires : ℕ → ℤ → W → Bool × W
  -- the same in a loop, with a timer of 50 milliseconds: how often the timer still comes first
  -- before the context is done, and the states in which the two find the world
  pub polls_left : ℕ → W → ℕ
  pub polled : ℕ → W → W
  pub gave_up : ℕ → W → W
