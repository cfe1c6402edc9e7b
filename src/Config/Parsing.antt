-- ===== src/Config/Parsing.antt =====
-- parse ends on every input.
use port_agent.Prelude.{
  ℕ, zero, suc, ◌≤◌, ◌<◌, ◌≡◌, refl, sym, subst, arith, Bool, true, false, Bytes, [], ◌∷◌, length,
  Option, none, some,
}
use port_agent.Config.{World}
use port_agent.Config.Text.{Stream, get_line, read_line, chomp, c_str}
use port_agent.Config.Commands.{process_command, next_line, after_line, parse_loop, parse}
use port_agent.Config.Validity.{IsValid}
use port_agent.Config.Steps.{process_command-IsValid}

unfoldable pub remaining : Stream → ℕ
remaining none = 0
remaining (some s) = length s

-- What a line leaves unread.
unfoldable pub Leaves : Option (Bytes × Stream) → ℕ → Type 0
Leaves none n = Unit
Leaves (some (buffer, rest)) n = remaining rest ≤ n

pub read_line-Leaves : (room : ℕ) (s : Bytes) → Leaves (read_line room s) (length s)
unfolding read_line Leaves remaining
read_line-Leaves room [] = omega arith
read_line-Leaves zero (c ∷ s) = ground arith
read_line-Leaves (suc room) (c ∷ s) = ground (arith, read_line-Leaves room s)

-- A line takes at least one byte.
get_line-Leaves : (s : Stream) (n : ℕ) → remaining s ≤ suc n → Leaves (get_line s) n
unfolding get_line Leaves remaining read_line
get_line-Leaves none n h = tt
get_line-Leaves (some []) n h = tt
get_line-Leaves (some (c ∷ s)) n h = ground (arith, read_line-Leaves 1022 s)

Ends : Option (Bool × World) → Type 0
Ends o = (done : Bool) × (v : World) × (o ≡ some (done, v)) × IsValid v

after_line-Ends :
    (result : Bool × World) (rest : Stream) (next : Stream → World → Option (Bool × World))
    → IsValid result.1
    → ((v : World) → IsValid v → Ends (next rest v))
    → Ends (after_line result rest next)
unfolding Ends
after_line-Ends (true, w) rest next v go = go w v
after_line-Ends (false, w) rest next v go = (false, w, refl, v)

next_line-Ends :
    (line : Option (Bytes × Stream)) (n : ℕ) (w : World)
    (next : Stream → World → Option (Bool × World))
    → Leaves line n
    → IsValid w
    → ((s : Stream) (v : World) → remaining s ≤ n → IsValid v → Ends (next s v))
    → Ends (next_line line w next)
unfolding Leaves
next_line-Ends none n w next l v go = unfold Ends in (true, w, refl, v)
next_line-Ends (some (buffer, rest)) n w next l v go =
    let cmd = chomp (c_str buffer) in
    after_line-Ends (process_command cmd w) rest next (process_command-IsValid cmd w v)
      (λ u valid. go rest u l valid)

last_line : (s : Stream) → remaining s ≡ 0 → get_line s ≡ none
unfolding get_line remaining
last_line none h = refl
last_line (some []) h = refl
last_line (some (c ∷ s)) h = absurd (omega arith)

parse_loop-Ends :
    (fuel : ℕ) (s : Stream) (w : World)
    → remaining s < fuel
    → IsValid w
    → Ends (parse_loop fuel s w)
unfolding parse_loop
parse_loop-Ends zero s w h v = absurd (omega arith)
parse_loop-Ends (suc zero) s w h v =
    subst (λ l. Ends (next_line l w (parse_loop 0))) (sym (last_line s (omega arith)))
      (unfold Ends in (true, w, refl, v))
parse_loop-Ends (suc (suc n)) s w h v =
    next_line-Ends (get_line s) n w (parse_loop (suc n)) (get_line-Leaves s n (omega arith)) v
      (λ t u le k. parse_loop-Ends (suc n) t u (omega arith) k)

-- From a valid configuration, parse ends on every input, and leaves a valid configuration.
pub parse-IsValid :
    (commands : Bytes) (w : World)
    → IsValid w
    → (done : Bool) × (v : World) × (parse commands w ≡ some (done, v)) × IsValid v
unfolding parse Ends
parse-IsValid commands w v =
    parse_loop-Ends (suc (length commands)) (some commands) w (unfold remaining in omega arith) v
