-- ===== src/Network.antt =====
-- src/network: what the communication objects share. The kernel is a function from the history
-- of system calls, newest first, and the call that is made now to its reply; a method is a
-- function of the object and the history that returns or raises.
pub mod Hoare
pub mod Sending
pub mod TcpCommListener
pub mod CommSocket
pub mod SerialCommSocket
use port_agent.Prelude.{
  ltb, ◌==◌, if◌then◌else◌, Bytes, length, drop, ℤ, pos, negsuc, ℕ, zero, suc, ◌+◌, ◌≡◌, refl, ◌⊎◌,
  inl, inr, Bool, true, false, List, [], ◌∷◌,
}

-- The values of errno that the code tells apart. EWOULDBLOCK is EAGAIN.
pub data Errno : Type 0 where
  eagain einprogress etimedout eaddrinuse other_errno : Errno

-- What initializeSerialSettings does to a flag of the terminal.
pub data FlagChange : Type 0 where
  keeps clears sets : FlagChange

pub data Parity : Type 0 where
  parity_none parity_odd parity_even : Parity

-- What initializeSerialSettings asks of the terminal besides the raw mode.
pub record LineSettings : Type 0 where
  pub rate : ℕ
  pub bits : ℕ
  pub parity_bits : Parity
  pub two_stop_bits : Bool
  pub local_crtscts : FlagChange  -- in c_lflag
  pub local_ixon : FlagChange  -- in c_lflag
  pub control_crtscts : FlagChange  -- in c_cflag, where CRTSCTS is flow control
  pub input_ixon : FlagChange  -- in c_iflag, where IXON is flow control

pub data Call : Type 0 where
  socket_stream socket_datagram : Call
  reuse_address : (fd : ℤ) → Call  -- setsockopt
  bind_port : (fd : ℤ) (port : ℕ) → Call
  listen_on : (fd : ℤ) → Call
  accept_from : (fd : ℤ) → Call
  get_host : (name : Bytes) → Call  -- gethostbyname
  connect_to : (fd : ℤ) (host : Bytes) (port : ℕ) → Call
  set_nonblocking : (fd : ℤ) → Call
  socket_port : (fd : ℤ) → Call  -- getsockname, and the port of its answer
  shut_down close_fd : (fd : ℤ) → Call
  read_from : (fd : ℤ) (size : ℕ) → Call
  write_to : (fd : ℤ) (buffer : Bytes) → Call
  send_to : (fd : ℤ) (buffer host : Bytes) (port : ℕ) → Call
  open_device : (path : Bytes) → Call
  apply_settings : (fd : ℤ) (settings : LineSettings) → Call  -- tcsetattr
  break_line : (fd : ℤ) (duration : ℕ) → Call  -- tcsendbreak
  elapsed : (since : ℕ) → Call  -- the seconds since the history had that length
  wait : Call  -- sleep and nanosleep

-- -1 with an errno, or a number that is not negative with the bytes that were read. A read's
-- number is that of its bytes.
pub data Reply : Type 0 where
  failed : Errno → Reply
  gives : ℕ → Bytes → Reply

abbrev pub Event : Type 0
Event = Call × Reply

abbrev pub History : Type 0
History = List Event

abbrev pub Kernel : Type 0
Kernel = History → Call → Reply

-- The exceptions of common/exception.h that communication raises.
pub data CommError : Type 0 where
  socket_create_failure socket_host_failure socket_connect_failure socket_read_failure : CommError
  socket_write_failure socket_missing_config socket_not_connected : CommError
  socket_already_connected socket_not_initialized device_open_failure : CommError
  not_implemented unknown_state : CommError
  memory_fault process_exit : CommError  -- no exceptions: a pointer to nothing, and exit()

-- How a method ends: with a value, or with an exception. `unfinished` is a loop without fuel.
pub data Outcome (S A : Type 0) : Type 0 where
  done : A → S → History → Outcome S A
  thrown : CommError → S → History → Outcome S A
  unfinished : Outcome S A

abbrev pub M : Type 0 → Type 0 → Type 0
M S A = S → History → Outcome S A

infixl 5 ◌>>=◌ ◌>>◌
unfoldable pub ◌>>=◌ : {S A B : Type 0} → M S A → (A → M S B) → M S B
◌>>=◌ m f s h = elim (m s h) [
  | done a s' h' ↦ f a s' h'
  | thrown e s' h' ↦ thrown e s' h'
  | unfinished ↦ unfinished
]

unfoldable pub ◌>>◌ : {S A B : Type 0} → M S A → M S B → M S B
unfolding ◌>>=◌
m >> k = m >>= λ _. k

abbrev pub give : {S A : Type 0} → A → M S A
give a s h = done a s h

abbrev pub raise : {S A : Type 0} → CommError → M S A
raise e s h = thrown e s h

abbrev pub this : {S : Type 0} → M S S
this s h = done s s h

abbrev pub modify : {S : Type 0} → (S → S) → M S (Unit {0})
modify f s h = done tt (f s) h

abbrev pub call : {S : Type 0} → Kernel → Call → M S Reply
call k c s h = let r = k h c in done r s ((c, r) ∷ h)

abbrev pub perform : {S : Type 0} → Kernel → Call → M S (Unit {0})
perform k c s h = done tt s ((c, k h c) ∷ h)

abbrev pub now : {S : Type 0} → M S ℕ
now s h = done (length h) s h

-- A method of a member, as a method of the object that holds it.
unfoldable pub of_member : {S T A : Type 0} → (S → T) → (T → S → S) → M T A → M S A
of_member get put m s h = elim (m (get s) h) [
  | done a t h' ↦ done a (put t s) h'
  | thrown e t h' ↦ thrown e (put t s) h'
  | unfinished ↦ unfinished
]

-- try { … } catch(SocketConnectFailure &e) { … }
abbrev pub is_connect_failure : CommError → Bool
is_connect_failure socket_connect_failure = true
is_connect_failure _ = false

unfoldable pub catch_connect_failure :
    {S : Type 0} → M S (Unit {0}) → M S (Unit {0}) → M S (Unit {0})
catch_connect_failure m handler s h = elim (m s h) [
  | done a s' h' ↦ done a s' h'
  | thrown e s' h' ↦ if is_connect_failure e then handler s' h' else thrown e s' h'
  | unfinished ↦ unfinished
]

-- The descriptor in a reply.
abbrev pub descriptor : Reply → ℤ
descriptor (failed e) = negsuc 0
descriptor (gives n bytes) = pos n

abbrev pub is_positive : ℤ → Bool
is_positive (pos n) = ltb 0 n
is_positive (negsuc n) = false

-- An `int` as a condition.
abbrev pub is_set : ℤ → Bool
is_set (pos n) = ltb 0 n
is_set (negsuc n) = true

unfoldable pub when : {S : Type 0} → Bool → M S (Unit {0}) → M S (Unit {0})
when b m = if b then m else give tt

-- The number in a reply that cannot fail.
abbrev pub number : Reply → ℕ
number (failed e) = 0
number (gives n bytes) = n

-- write's count is negative.
abbrev pub is_failure : Reply → Bool
is_failure (failed e) = true
is_failure (gives n bytes) = false

abbrev pub is_errno : Errno → Errno → Bool
is_errno eagain eagain = true
is_errno einprogress einprogress = true
is_errno etimedout etimedout = true
is_errno eaddrinuse eaddrinuse = true
is_errno other_errno other_errno = true
is_errno _ _ = false

abbrev pub fails_with : Errno → Reply → Bool
fails_with e (failed e') = is_errno e' e
fails_with e (gives n bytes) = false

abbrev pub bytes_of : Reply → Bytes
bytes_of (failed e) = []
bytes_of (gives n bytes) = bytes

abbrev pub is_zero : ℤ → Bool
is_zero (pos n) = n == 0
is_zero (negsuc n) = false

-- The loop of writeData, which three classes have, on fuel: `write` may take nothing of what it is
-- offered. `fd` is where it writes, and `lost` what a failed write leaves of the object.
unfoldable pub write_rounds :
    {S : Type 0} (k : Kernel) (fuel : ℕ) (fd : ℤ) (lost : S → S) (buffer : Bytes) (written : ℕ)
    → M S ℕ
write_rounds k zero fd lost buffer written s h = unfinished
write_rounds k (suc fuel) fd lost buffer written s h =
    let again : ℕ → M _ ℕ =
      λ count. write_rounds k fuel fd lost (drop count buffer) (written + count) in
    (if length buffer == 0 then give written else (do
      r ← call k (write_to fd buffer)
      if is_failure r then (do modify lost; raise socket_write_failure) else again (number r)))
      s h

pub Reply-cases :
    (r : Reply) → ((e : Errno) × (r ≡ failed e)) ⊎ ((n : ℕ) × (bytes : Bytes) × (r ≡ gives n bytes))
Reply-cases (failed e) = inl (e, refl)
Reply-cases (gives n bytes) = inr (n, bytes, refl)
