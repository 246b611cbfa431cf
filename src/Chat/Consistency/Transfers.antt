-- ===== src/Chat/Consistency/Transfers.antt =====
-- A property of the tables through `/whisper` and `/sendfile`: what holds of the tables before,
-- and is kept by what the other threads do during a wait, holds after.
use homeworks.Prelude.{
  ℕ, ◌+◌, ◌-◌, inl, inr, CString, streq, ltb, Bool-cases, Option-cases, arith, ℤ, strchr, CString,
}
use homeworks.Chat.{Server, max_username_len, buffer_size}
use homeworks.Chat.Names.{find_client_by_username}
use homeworks.Chat.Files.{
  enqueue_request, add_to_file_queue, announce_full, handle_file_transfer, exceeds_limit,
  has_valid_extension,
}
use homeworks.Chat.Commands.{Outcome, carry_on, log_out, fault, scan_word, scan_long, skip_spaces}
use homeworks.Chat.Dispatch.{handle_whisper, handle_sendfile, whisper_target}
use homeworks.Chat.Consistency.Quiet.{IsQuiet, whisper-IsQuiet, refuse-IsQuiet, log_event-IsQuiet}

-- The property of the state in which a command ends, which a fault does not reach.
abbrev pub After : (Server → Type 0) → Outcome → Type 0
After P (carry_on s) = P s
After P (log_out s) = P s
After P fault = Unit {0}

module _ (P : Server → Type 0) (stable : (s t : Server) → IsQuiet s t → P s → P t)
    (others : Server → Server) (keeps : (s : Server) → P s → P (others s)) where
  enqueue_request-keeps :
      (s : Server) (i j : ℕ) (f : CString) (size : ℤ) (now n : ℕ)
      → P s
      → P (enqueue_request (record s { empty_slots = n }) i j f size now)
  unfolding enqueue_request
  enqueue_request-keeps s i j f size now n p = stable s _ (ground arith) p

  add_to_file_queue-keeps :
      (s : Server) (i j : ℕ) (f : CString) (size : ℤ) (now : ℕ)
      → P s
      → P (add_to_file_queue others s i j f size now).1
  unfolding add_to_file_queue
  add_to_file_queue-keeps s i j f size now p =
      let s1 = others (announce_full s i) in
      let p1 : P s1 = keeps (announce_full s i) (stable s (announce_full s i) (ground arith) p) in
      elim (Bool-cases (ltb 0 s.empty_slots)) [
        | inl free ↦ rw free (enqueue_request-keeps s i j f size now (s.empty_slots - 1) p)
        | inr full ↦ elim (Bool-cases (ltb 0 s1.empty_slots)) [
          | inl freed ↦
              rw (full, freed) (enqueue_request-keeps s1 i j f size now (s1.empty_slots - 1) p1)
          | inr still ↦ rw (full, still) (stable s1 _ (ground arith) p1)
        ]
      ]

  handle_file_transfer-keeps :
      (s : Server) (i : ℕ) (f target : CString) (size : ℤ) (now : ℕ)
      → P s
      → P (handle_file_transfer others s i f target size now)
  unfolding handle_file_transfer
  handle_file_transfer-keeps s i f target size now p =
      elim (Bool-cases (streq (s.clients i).username target)) [
        | inl self ↦ rw self (stable s _ (refuse-IsQuiet s i _ _ _) p)
        | inr other ↦ elim (Bool-cases (exceeds_limit size)) [
          | inl large ↦ rw (other, large) (stable s _ (refuse-IsQuiet s i _ _ _) p)
          | inr small ↦ elim (Bool-cases (has_valid_extension f)) [
            | inr wrong ↦ rw (other, small, wrong) (stable s _ (refuse-IsQuiet s i _ _ _) p)
            | inl valid ↦ elim (Option-cases (find_client_by_username s target)) [
              | inl missing ↦
                  rw (other, small, valid, missing, handle_file_transfer)
                    (stable s _ (refuse-IsQuiet s i _ _ _) p)
              | inr (j, found) ↦
                  rw (other, small, valid, found, handle_file_transfer)
                    (add_to_file_queue-keeps _ i j f size now
                      (stable s _ (log_event-IsQuiet s _ _) p))
            ]
          ]
        ]
      ]

  pub handle_whisper-keeps :
      (s : Server) (i : ℕ) (args : CString) → P s → After P (handle_whisper s i args)
  unfolding handle_whisper
  handle_whisper-keeps s i args p =
      elim (Bool-cases (streq (whisper_target args (strchr args b' ')) (s.clients i).username)) [
        | inl self ↦ rw self (stable s _ (refuse-IsQuiet s i _ _ _) p)
        | inr other ↦
            elim (Option-cases
              (find_client_by_username s (whisper_target args (strchr args b' ')))) [
                | inl missing ↦
                    rw (other, missing, handle_whisper) (stable s _ (refuse-IsQuiet s i _ _ _) p)
                | inr (j, found) ↦ elim (Option-cases (strchr args b' ')) [
                  | inl spaceless ↦
                      rw (other, found, handle_whisper) (rw (spaceless, handle_whisper) tt)
                  | inr (m, spaced) ↦
                      rw (other, found, handle_whisper)
                        (rw (spaced, handle_whisper) (stable s _ (whisper-IsQuiet s i j _ _) p))
                ]
              ]
      ]

  pub handle_sendfile-keeps :
      (s : Server) (i : ℕ) (params : CString) (now : ℕ)
      → P s
      → After P (handle_sendfile others s i params now)
  unfolding handle_sendfile
  handle_sendfile-keeps s i params now p = elim (Option-cases (scan_word buffer_size params)) [
    | inl long ↦ rw (long, handle_sendfile) tt
    | inr ((f, rest), first) ↦ elim (Option-cases (scan_word (max_username_len + 1) rest)) [
      | inl long ↦ rw (first, handle_sendfile) (rw (long, handle_sendfile) tt)
      | inr ((target, rest'), second) ↦
          rw (first, handle_sendfile)
            (rw (second, handle_sendfile)
              (handle_file_transfer-keeps s i f target (scan_long (skip_spaces rest')) now p))
    ]
  ]
