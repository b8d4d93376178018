-- ===== src/Tests/Signals.antt =====
-- Signals that arrive together.
use opsh_actual.Base.{◌≡◌, refl, true, [], ◌∷◌}
use opsh_actual.Exec.Signal.{
  sigint, sigterm, default, handle_sigint, handle_sigterm, handle_sigchld, sigaction, signal_init,
  signal_clear, signal_pending, signal_check_int, signal_check_term, signal_get_pending, arrive,
}
use opsh_actual.Exec.Signal.Waiting.{
  arrives, check_int, clear, after, started, Reports, after-Reports,
}

program : Unit {0}
unfolding handle_sigint handle_sigterm handle_sigchld sigaction signal_init signal_clear
    signal_pending signal_check_int signal_check_term signal_get_pending arrive after
program = tt

-- A check takes its own signal alone.
term_left :
    (signal_check_term
      (after (started λ sig. default) (check_int ∷ arrives sigterm ∷ arrives sigint ∷ []))).0
    ≡ true
unfolding program
term_left = refl

-- Clearing drops a SIGTERM that came with the SIGINT that is reported.
term_dropped :
    signal_get_pending
      (after (started λ sig. default) (clear ∷ arrives sigterm ∷ arrives sigint ∷ []))
    ≡ 0
unfolding program
term_dropped = refl

after-Reports_example :
    Reports
      (arrives sigterm ∷ clear ∷ arrives sigint ∷ [])
      (after (started λ sig. default) (arrives sigterm ∷ clear ∷ arrives sigint ∷ []))
after-Reports_example =
    after-Reports (λ sig. default) (arrives sigterm ∷ clear ∷ arrives sigint ∷ [])
