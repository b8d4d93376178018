-- ===== src/Exec/Signal.antt =====
-- src/exec/signal.c: the flags of the signals that wait, and what the process does on each signal.
-- A signal is its number on Linux.
pub mod Waiting
use opsh_actual.Base.{ℕ, Bool, true, false, ◌==◌, if◌then◌else◌, ◌||◌}

abbrev pub sigint : ℕ
sigint = 2

abbrev pub sigpipe : ℕ
sigpipe = 13

abbrev pub sigterm : ℕ
sigterm = 15

abbrev pub sigchld : ℕ
sigchld = 17

abbrev pub sigtstp : ℕ
sigtstp = 20

abbrev pub sigttin : ℕ
sigttin = 21

abbrev pub sigttou : ℕ
sigttou = 22

-- `sa_handler`: SIG_DFL, SIG_IGN, or the handler of this file for the signal.
pub data Action : Type 0 where
  default ignore handler : Action

pub record Signals : Type 0 where
  pub sig_int_pending : Bool
  pub sig_term_pending : Bool
  pub sig_chld_pending : Bool
  pub actions : ℕ → Action

unfoldable pub handle_sigint : Signals → Signals
handle_sigint s = record s { sig_int_pending = true }

unfoldable pub handle_sigterm : Signals → Signals
handle_sigterm s = record s { sig_term_pending = true }

unfoldable pub handle_sigchld : Signals → Signals
handle_sigchld s = record s { sig_chld_pending = true }

-- `sigaction`, and `signal` for the default.
unfoldable pub sigaction : ℕ → Action → Signals → Signals
sigaction sig action s = record s {
  actions = λ other. if other == sig then action else s.actions other;
}

unfoldable pub signal_init : Signals → Signals
unfolding sigaction
signal_init s = sigaction sigttou ignore (
    sigaction sigttin ignore (
      sigaction sigpipe ignore (
        sigaction sigtstp ignore
          (sigaction sigchld handler (sigaction sigterm handler (sigaction sigint handler s))))))

unfoldable pub signal_clear : Signals → Signals
signal_clear s = record s {
  sig_int_pending = false;
  sig_term_pending = false;
  sig_chld_pending = false;
}

unfoldable pub signal_reset : Signals → Signals
unfolding sigaction signal_clear
signal_reset s = signal_clear (
    sigaction sigttou default (
      sigaction sigttin default (
        sigaction sigtstp default (
          sigaction sigchld default
            (sigaction sigpipe default (sigaction sigterm default (sigaction sigint default s)))))))

unfoldable pub signal_pending : Signals → Bool
signal_pending s = s.sig_int_pending || s.sig_term_pending

-- The check answers the flag and takes it away.
unfoldable pub signal_check_int : Signals → Bool × Signals
signal_check_int s =
    if s.sig_int_pending then (true, record s { sig_int_pending = false }) else (false, s)

unfoldable pub signal_check_term : Signals → Bool × Signals
signal_check_term s =
    if s.sig_term_pending then (true, record s { sig_term_pending = false }) else (false, s)

unfoldable pub signal_check_chld : Signals → Bool × Signals
signal_check_chld s =
    if s.sig_chld_pending then (true, record s { sig_chld_pending = false }) else (false, s)

unfoldable pub signal_get_pending : Signals → ℕ
signal_get_pending s =
    if s.sig_int_pending then sigint else if s.sig_term_pending then sigterm else 0

-- What a signal that arrives does. A default action, which ends or stops the process, is not followed.
unfoldable pub arrive : ℕ → Signals → Signals
unfolding handle_sigint handle_sigterm handle_sigchld
arrive sig s = elim (s.actions sig) [
  | handler ↦
      if sig == sigint
      then handle_sigint s
      else if sig == sigterm
      then handle_sigterm s
      else if sig == sigchld
      then handle_sigchld s
      else s
  | ignore ↦ s
  | default ↦ s
]
