-- ===== src/Config/Rejection.antt =====
-- Lines that processCommand refuses.
use port_agent.Prelude.{
  ◌≡◌, ◌≢◌, inl, inr, refl, sym, subst, arith, false, if◌then◌else◌, Bool-cases, Bytes, codes,
  bytes_eq, bytes_eq_sound, [], length, Option, none, some,
}
use port_agent.Config.{World}
use port_agent.Config.Text.{next_token, skip_spaces, read_token}
use port_agent.Config.Keywords.{
  Keyword, split_command, whole_line, first_token, help, verbose, save_config, get_config,
  get_state, ping, shutdown,
}
use port_agent.Config.Commands.{process_command}

-- The third word of a line.
unfoldable pub third_word : Bytes → Bytes
unfolding next_token
third_word line = (next_token (next_token (next_token (some line)).1).1).0

not_literal :
    (line literal : Bytes) (k : Keyword) (rest : Option Keyword)
    → length (third_word line) ≢ 0
    → length (third_word literal) ≡ 0
    → rest ≡ none
    → (if bytes_eq line literal then some k else rest) ≡ none
not_literal line literal k rest h e r = elim (Bool-cases (bytes_eq line literal)) [
  | inl s ↦
      absurd (h (subst (λ l. length (third_word l) ≡ 0) (sym (bytes_eq_sound line literal s)) e))
  | inr n ↦ rw (n, r) refl
]

whole_line-none : (line : Bytes) → length (third_word line) ≢ 0 → whole_line line ≡ none
unfolding whole_line third_word skip_spaces read_token
whole_line-none line h = not_literal line (codes "help") help _ h refl (
    not_literal line (codes "verbose") verbose _ h refl (
      not_literal line (codes "save_config") save_config _ h refl (
        not_literal line (codes "get_config") get_config _ h refl (
          not_literal line (codes "get_state") get_state _ h refl (
            not_literal line (codes "ping") ping _ h refl
              (not_literal line (codes "shutdown") shutdown none h refl refl))))))

split_command_none : (line : Bytes) → length (third_word line) ≢ 0 → split_command line ≡ ([], [])
unfolding split_command third_word
split_command_none line h = ground arith

-- A line of three words or more is refused, and changes nothing.
pub process_command_trailing :
    (line : Bytes) (w : World) → length (third_word line) ≢ 0 → process_command line w ≡ (false, w)
unfolding process_command first_token
process_command_trailing line w h = rw (whole_line-none line h, split_command_none line h) refl
