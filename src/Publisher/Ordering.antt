-- ===== src/Publisher/Ordering.antt =====
-- The order of the publishers of a list, and their duplicates.
use port_agent.Prelude.{
  ℕ, ◌≡◌, inl, inr, refl, sym, ◌∙◌, arith, Bool, true, false, ◌==◌, ==_iff, Bool-cases, Bytes,
  bytes_eq, [], ◌∷◌, ◌++◌, List, Option, none, some, All, All-snoc,
}
use port_agent.Publisher.{
  PublisherType, publisher_unknown, publisher_driver_command, publisher_driver_data,
  publisher_instrument_command, publisher_instrument_data, publisher_udp, publisher_tcp,
  publisher_telnet_sniffer, publisher_file, publisher_code, same_type, Publisher, CommBase,
  tcp_comm_listener, tcp_comm_socket, udp_comm_socket, LogFile, rotation_code, compare,
  compare_comm, compare_comm_socket, same_log_file,
}
use port_agent.Publisher.PublisherList.{add_publisher, is_unique}

bytes_eq_comm : (xs ys : Bytes) → bytes_eq xs ys ≡ bytes_eq ys xs
bytes_eq_comm [] [] = refl
bytes_eq_comm [] (y ∷ ys) = refl
bytes_eq_comm (x ∷ xs) [] = refl
bytes_eq_comm (x ∷ xs) (y ∷ ys) = ground (arith, bytes_eq_comm xs ys)

==_comm : (a b : ℕ) → (a == b) ≡ (b == a)
==_comm a b = ground arith

compare_comm_comm : (a b : CommBase) → compare_comm a b ≡ compare_comm b a
unfolding compare_comm
compare_comm_comm (tcp_comm_listener p) (tcp_comm_listener q) = ==_comm p q
compare_comm_comm (tcp_comm_socket h p) (tcp_comm_socket k q) = ground (arith, bytes_eq_comm h k)
compare_comm_comm (udp_comm_socket h p) (udp_comm_socket k q) = ground (arith, bytes_eq_comm h k)
compare_comm_comm _ _ = ground arith

compare_comm_socket_comm :
    (a b : Option CommBase) → compare_comm_socket a b ≡ compare_comm_socket b a
unfolding compare_comm_socket
compare_comm_socket_comm none none = refl
compare_comm_socket_comm none (some b) = refl
compare_comm_socket_comm (some a) none = refl
compare_comm_socket_comm (some a) (some b) = compare_comm_comm a b

same_log_file_comm : (a b : LogFile) → same_log_file a b ≡ same_log_file b a
unfolding same_log_file
same_log_file_comm a b =
    rw
      (
        bytes_eq_comm a.file_name b.file_name,
        bytes_eq_comm a.file_base b.file_base,
        bytes_eq_comm a.file_extention b.file_extention,
        ==_comm (rotation_code a.rotation) (rotation_code b.rotation),
      )
      refl

compare_sym : (p q : Publisher) → compare p q ≡ compare q p
unfolding compare
compare_sym p q = ground (
  arith,
  same_log_file_comm p.log_file q.log_file,
  compare_comm_socket_comm p.comm_socket q.comm_socket,
)

-- The types of which a list holds one publisher.
abbrev pub stands_once : PublisherType → Bool
stands_once publisher_driver_command = true
stands_once publisher_instrument_command = true
stands_once publisher_instrument_data = true
stands_once _ = false

pub stands_once-is_unique : (t : PublisherType) → stands_once t ≡ is_unique t
unfolding is_unique publisher_code
stands_once-is_unique publisher_unknown = refl
stands_once-is_unique publisher_driver_command = refl
stands_once-is_unique publisher_driver_data = refl
stands_once-is_unique publisher_instrument_command = refl
stands_once-is_unique publisher_instrument_data = refl
stands_once-is_unique publisher_file = refl
stands_once-is_unique publisher_udp = refl
stands_once-is_unique publisher_tcp = refl
stands_once-is_unique publisher_telnet_sniffer = refl

-- Two publishers that add keeps side by side: they do not compare equal, and are not of one of
-- the types that stand once.
abbrev pub Apart : Publisher → Publisher → Type 0
Apart p q =
    (compare p q ≡ false)
    × (stands_once p.publisher_type ≡ true → same_type p.publisher_type q.publisher_type ≡ false)

abbrev pub AllApart : List Publisher → Type 0
AllApart [] = Unit
AllApart (p ∷ l) = All (Apart p) l × AllApart l

-- Behind a publisher that is no file stands no file.
abbrev pub IsFile : Publisher → Type 0
IsFile p = same_type p.publisher_type publisher_file ≡ true

abbrev pub NoFile : Publisher → Type 0
NoFile p = same_type p.publisher_type publisher_file ≡ false

abbrev pub FilesFirst : List Publisher → Type 0
FilesFirst [] = Unit
FilesFirst (p ∷ l) = (NoFile p → All NoFile l) × FilesFirst l

pub record IsOrdered (l : List Publisher) : Type 0 where
  pub files_first : FilesFirst l
  pub apart : AllApart l

pub stands_once_same : (s t : PublisherType) → same_type s t ≡ true → stands_once s ≡ stands_once t
unfolding is_unique
stands_once_same s t h =
    let e = (==_iff (publisher_code s) (publisher_code t)).0 h in
    let u : is_unique s ≡ is_unique t = rw e refl in
    stands_once-is_unique s ∙ (u ∙ sym (stands_once-is_unique t))

Apart-sym : (p q : Publisher) → Apart p q → Apart q p
Apart-sym p q (differ, once) = (
  compare_sym q p ∙ differ,
  λ u. elim (Bool-cases (same_type q.publisher_type p.publisher_type)) [
    | inr n ↦ n
    | inl s ↦
        absurd (clash (once (sym (stands_once_same q.publisher_type p.publisher_type s) ∙ u)) s)
  ],
)
  where
    clash :
        same_type p.publisher_type q.publisher_type ≡ false
        → same_type q.publisher_type p.publisher_type ≡ true
        → ⊥
    clash h k = ground arith

AllApart-snoc :
    (l : List Publisher) (p : Publisher) → AllApart l → All (Apart p) l → AllApart (l ++ p ∷ [])
AllApart-snoc [] p a h = (tt, tt)
AllApart-snoc (q ∷ l) p a h =
    (All-snoc (Apart q) l p a.0 (Apart-sym p q h.0), AllApart-snoc l p a.1 h.1)

FilesFirst-snoc :
    (l : List Publisher) (p : Publisher) → FilesFirst l → NoFile p → FilesFirst (l ++ p ∷ [])
FilesFirst-snoc [] p f n = (λ m. tt, tt)
FilesFirst-snoc (q ∷ l) p f n = (λ m. All-snoc NoFile l p (f.0 m) n, FilesFirst-snoc l p f.1 n)

-- addPublisher puts a publisher that is apart from the others where the order wants it.
pub add_publisher-IsOrdered :
    (p : Publisher) (l : List Publisher)
    → IsOrdered l
    → All (Apart p) l
    → IsOrdered (add_publisher p l).1
unfolding add_publisher
add_publisher-IsOrdered p l o a = elim (Bool-cases (same_type p.publisher_type publisher_unknown)) [
  | inl e ↦ rw e o
  | inr e ↦ elim (Bool-cases (same_type p.publisher_type publisher_file)) [
    | inl f ↦
        rw (e, f)
          (record { files_first = (λ n. absurd (clash f n), o.files_first); apart = (a, o.apart) })
    | inr n ↦
        rw (e, n)
          (record {
            files_first = FilesFirst-snoc l p o.files_first n;
            apart = AllApart-snoc l p o.apart a;
          })
  ]
]
  where
    clash : {b : Bool} → b ≡ true → b ≡ false → ⊥
    clash h k = cc
