-- ===== src/Exec/Signal/Waiting.antt =====
-- Which signals wait after a history of arrivals and calls.
use opsh_actual.Base.{
  ℕ, ◌≡◌, refl, Bool, true, false, ◌==◌, if◌then◌else◌, ◌||◌, List, [], ◌∷◌, arith,
}
use opsh_actual.Exec.Signal.{
  sigint, sigterm, sigchld, Action, handler, Signals, handle_sigint, handle_sigterm, handle_sigchld,
  sigaction, signal_init, signal_clear, signal_pending, signal_check_int, signal_check_term,
  signal_check_chld, signal_get_pending, arrive,
}

-- What happens to the flags.
pub data Event : Type 0 where
  arrives : ℕ → Event
  check_int check_term check_chld clear : Event

abbrev pub happen : Event → Signals → Signals
happen (arrives sig) s = arrive sig s
happen check_int s = (signal_check_int s).1
happen check_term s = (signal_check_term s).1
happen check_chld s = (signal_check_chld s).1
happen clear s = signal_clear s

-- The state behind a history, the latest event first.
unfoldable pub after : Signals → List Event → Signals
unfolding arrive signal_check_int signal_check_term signal_check_chld signal_clear
after s [] = s
after s (e ∷ history) = happen e (after s history)

-- Whether an event takes a signal away.
abbrev pub takes : Event → ℕ → Bool
takes (arrives other) sig = false
takes check_int sig = sig == sigint
takes check_term sig = sig == sigterm
takes check_chld sig = sig == sigchld
takes clear sig = true

abbrev pub brings : Event → ℕ → Bool
brings (arrives other) sig = sig == other
brings _ sig = false

-- Whether a signal has arrived since the last event that takes it away.
unfoldable pub waits : ℕ → List Event → Bool
waits sig [] = false
waits sig (e ∷ history) =
    let before = waits sig history in
    if brings e sig then true else if takes e sig then false else before

-- The process between signal_init and the next change of the actions.
pub record Agrees (history : List Event) (s : Signals) : Type 0 where
  pub int_waits : s.sig_int_pending ≡ waits sigint history
  pub term_waits : s.sig_term_pending ≡ waits sigterm history
  pub chld_waits : s.sig_chld_pending ≡ waits sigchld history
  pub on_int : s.actions sigint ≡ handler
  pub on_term : s.actions sigterm ≡ handler
  pub on_chld : s.actions sigchld ≡ handler

arrive-Agrees :
    (sig : ℕ) (history : List Event) (s : Signals)
    → Agrees history s
    → Agrees (arrives sig ∷ history) (arrive sig s)
unfolding arrive waits handle_sigint handle_sigterm handle_sigchld
arrive-Agrees sig history s a = record {
  int_waits = ground arith;
  term_waits = ground arith;
  chld_waits = ground arith;
  on_int = ground arith;
  on_term = ground arith;
  on_chld = ground arith;
}

happen-Agrees :
    (e : Event) (history : List Event) (s : Signals)
    → Agrees history s
    → Agrees (e ∷ history) (happen e s)
unfolding waits signal_check_int signal_check_term signal_check_chld signal_clear
happen-Agrees (arrives sig) history s a = arrive-Agrees sig history s a
happen-Agrees check_int history s a = record {
  int_waits = ground arith;
  term_waits = ground arith;
  chld_waits = ground arith;
  on_int = ground arith;
  on_term = ground arith;
  on_chld = ground arith;
}
happen-Agrees check_term history s a = record {
  int_waits = ground arith;
  term_waits = ground arith;
  chld_waits = ground arith;
  on_int = ground arith;
  on_term = ground arith;
  on_chld = ground arith;
}
happen-Agrees check_chld history s a = record {
  int_waits = ground arith;
  term_waits = ground arith;
  chld_waits = ground arith;
  on_int = ground arith;
  on_term = ground arith;
  on_chld = ground arith;
}
happen-Agrees clear history s a = record {
  int_waits = refl;
  term_waits = refl;
  chld_waits = refl;
  on_int = a.on_int;
  on_term = a.on_term;
  on_chld = a.on_chld;
}

-- What the program's calls answer, by the history alone.
pub record Reports (history : List Event) (s : Signals) : Type 0 where
  pub int_checked : (signal_check_int s).0 ≡ waits sigint history
  pub term_checked : (signal_check_term s).0 ≡ waits sigterm history
  pub chld_checked : (signal_check_chld s).0 ≡ waits sigchld history
  pub any_pending : signal_pending s ≡ (waits sigint history || waits sigterm history)
  pub first_pending :
      signal_get_pending s
      ≡ (if waits sigint history then sigint else if waits sigterm history then sigterm else 0)

Agrees-Reports : (history : List Event) (s : Signals) → Agrees history s → Reports history s
unfolding signal_check_int signal_check_term signal_check_chld signal_pending signal_get_pending
Agrees-Reports history s a = record {
  int_checked = ground arith;
  term_checked = ground arith;
  chld_checked = ground arith;
  any_pending = ground arith;
  first_pending = ground arith;
}

-- A process that has started: no signal waits.
abbrev pub started : (ℕ → Action) → Signals
started actions = signal_init (record {
  sig_int_pending = false;
  sig_term_pending = false;
  sig_chld_pending = false;
  actions = actions;
})

after-Agrees :
    (actions : ℕ → Action) (history : List Event) → Agrees history (after (started actions) history)
unfolding after waits signal_init sigaction
after-Agrees actions [] = record {
  int_waits = refl;
  term_waits = refl;
  chld_waits = refl;
  on_int = refl;
  on_term = refl;
  on_chld = refl;
}
after-Agrees actions (e ∷ history) = happen-Agrees e history _ (after-Agrees actions history)

-- After signal_init and any history of arriving signals, checks and clearings, in whatever order: each
-- check answers whether its signal has arrived since the last event that takes it away;
-- signal_pending answers whether SIGINT or SIGTERM has, and signal_get_pending which one, SIGINT
-- first.
pub after-Reports :
    (actions : ℕ → Action) (history : List Event)
    → Reports history (after (started actions) history)
after-Reports actions history = Agrees-Reports history _ (after-Agrees actions history)
