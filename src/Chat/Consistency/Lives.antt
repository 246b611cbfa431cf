-- ===== src/Chat/Consistency/Lives.antt =====
-- A property of the tables through a client's life: if joining, leaving, logging in and cleaning
-- up keep it, so does each round of `client_handler`.
use homeworks.Prelude.{
  ℕ, ◌≡◌, true, not, ◌||◌, Option, none, some, CString, text, streq, starts_with, drop, if_cases,
  arith,
}
use homeworks.Chat.{Server}
use homeworks.Chat.Commands.{Outcome, carry_on, log_out, fault, handle_join, handle_leave}
use homeworks.Chat.Dispatch.{handle_command, handle_exit}
use homeworks.Chat.Session.{
  Phase, naming, chatting, ended, login, welcome, cleanup_client, after_command, handler_round,
  chomp,
}
use homeworks.Chat.Consistency.Quiet.{IsQuiet, handle_broadcast-IsQuiet}
use homeworks.Chat.Consistency.Transfers.{After, handle_whisper-keeps, handle_sendfile-keeps}

-- The property of the state after a round, unless the program faulted.
abbrev pub AfterRound : (Server → Type 0) → Option (Phase × Server) → Type 0
AfterRound P none = Unit {0}
AfterRound P (some (phase, s)) = P s

module _ (P : Server → Type 0) (stable : (s t : Server) → IsQuiet s t → P s → P t)
    (others : Server → Server) (keeps : (s : Server) → P s → P (others s)) (i : ℕ)
    (joins : (s : Server) (n : CString)
      → (s.clients i).active ≡ true
      → P s
      → P (handle_join others s i n))
    (leaves : (s : Server) (i : ℕ) → P s → P (handle_leave s i)) where
  handle_exit-keeps : (s : Server) (i : ℕ) → P s → P (handle_exit s i)
  unfolding handle_exit
  handle_exit-keeps s i p = stable s _ (ground arith) p

  pub handle_command-keeps :
      (s : Server) (buffer : CString) (now : ℕ)
      → (s.clients i).active ≡ true
      → P s
      → After P (handle_command others s i buffer now)
  unfolding handle_command
  handle_command-keeps s buffer now a p =
      if_cases (After P) (starts_with buffer (text "/join ")) (λ _. joins s (drop 6 buffer) a p)
        λ _.
          if_cases (After P) (streq buffer (text "/leave")) (λ _. leaves s i p)
            λ _.
              if_cases (After P) (starts_with buffer (text "/broadcast "))
                (λ _. stable s _ (handle_broadcast-IsQuiet s i (drop 11 buffer)) p)
                λ _.
                  if_cases (After P) (starts_with buffer (text "/whisper "))
                    (λ _. handle_whisper-keeps P stable others keeps s i (drop 9 buffer) p)
                    λ _.
                      if_cases (After P) (starts_with buffer (text "/sendfile "))
                        (λ _.
                          handle_sendfile-keeps P stable others keeps s i (drop 10 buffer) now p)
                        λ _.
                          if_cases (After P) (streq buffer (text "/exit"))
                            (λ _. handle_exit-keeps s i p) (λ _. p)

  module _ (cleans : (s : Server) (i : ℕ) → P s → P (cleanup_client s i))
      (logs_in : (s : Server) (i : ℕ) (buffer : CString) → P s → P (login s i buffer).1) where
    after_command-keeps : (out : Outcome) → After P out → AfterRound P (after_command i out)
    unfolding after_command
    after_command-keeps (carry_on s) p = p
    after_command-keeps (log_out s) p = cleans s i p
    after_command-keeps fault p = tt

    welcome-keeps : (s : Server) → P s → P (welcome s i)
    unfolding welcome
    welcome-keeps s p = stable s _ (ground arith) p

    -- A round of `client_handler` keeps the property.
    pub handler_round-keeps :
        (s : Server) (now : ℕ) (phase : Phase) (input : Option CString)
        → P s
        → AfterRound P (handler_round others s i now phase input)
    unfolding handler_round
    handler_round-keeps s now ended input p = p
    handler_round-keeps s now naming none p =
        if_cases (AfterRound P) (not s.server_running) (λ _. cleans s i p) (λ _. cleans s i p)
    handler_round-keeps s now naming (some buffer) p =
        if_cases (AfterRound P) (not s.server_running) (λ _. cleans s i p)
          (λ _.
            if_cases (AfterRound P) (login s i (chomp buffer)).0
              (λ _. welcome-keeps _ (logs_in s i (chomp buffer) p))
              (λ _. logs_in s i (chomp buffer) p))
    handler_round-keeps s now chatting none p =
        if_cases (AfterRound P) (not s.server_running || not (s.clients i).active)
          (λ _. cleans s i p)
          (λ _.
            cleans _ i
              (cleans (record s { lost_connection = true }) i (stable s _ (ground arith) p)))
    handler_round-keeps s now chatting (some buffer) p =
        if_cases (AfterRound P) (not s.server_running || not (s.clients i).active)
          (λ _. cleans s i p)
          (λ running.
            after_command-keeps _ (handle_command-keeps s (chomp buffer) now (ground arith) p))
