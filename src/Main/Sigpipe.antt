-- ===== src/Main/Sigpipe.antt =====
-- src/signal.rs, and the choice that `main` (src/main.rs) makes: what a write to a closed pipe does
-- to the process.
use btwattch2_rs.Prelude.{if◌then◌else◌}
use btwattch2_rs.Chrono.{Chrono}
use btwattch2_rs.Cli.Foreign.{Foreign}
use btwattch2_rs.Cli.Options.{Cli, is_agent_start}

pub data Sigpipe : Type 0 where
  fatal ignored : Sigpipe

-- libc's `SIG_DFL` and `SIG_IGN`.
pub data Disposition : Type 0 where
  sig_dfl sig_ign : Disposition

-- The disposition that the process gets.
unfoldable pub set_sigpipe : Sigpipe → Disposition
set_sigpipe fatal = sig_dfl
set_sigpipe ignored = sig_ign

module _ (f : Foreign) (c : Chrono) where
  -- Only a starting agent survives a client that hangs up.
  unfoldable pub sigpipe_of : Cli f c → Disposition
  unfolding set_sigpipe
  sigpipe_of cli = set_sigpipe (if is_agent_start f c cli then ignored else fatal)
