-- ===== src/Publisher/PublisherList.antt =====
-- publisher_list.cxx: class PublisherList.
use port_agent.Prelude.{
  not, length, codes, ◌==◌, Bool, true, false, ◌||◌, if◌then◌else◌, Bytes, [], ◌∷◌, ◌++◌, List,
  Option, none, some,
}
use port_agent.Publisher.{
  PublisherType, publisher_unknown, publisher_driver_command, publisher_instrument_command,
  publisher_instrument_data, publisher_file, same_type, Publisher, compare, PacketView,
  PublishError, packet_publish_failure, Answer, returned, raised, unknown_publisher_type,
}
use port_agent.Publisher.Routing.{Surroundings, publish}

-- add, its search: the new publisher against each of the list.
unfoldable pub has_duplicate : Publisher → List Publisher → Bool
unfolding compare
has_duplicate p [] = false
has_duplicate p (i ∷ l) = let rest = has_duplicate p l in if compare p i then true else rest

-- The list without the first publisher of a type.
unfoldable pub remove_type : PublisherType → List Publisher → List Publisher
remove_type t [] = []
remove_type t (i ∷ l) =
    let rest = remove_type t l in if same_type t i.publisher_type then l else i ∷ rest

-- addPublisher: a copy of the publisher, the files before the others. None is added of an
-- unknown type.
unfoldable pub add_publisher : Publisher → List Publisher → Option PublishError × List Publisher
add_publisher p l =
    if same_type p.publisher_type publisher_unknown
    then (some unknown_publisher_type, l)
    else if same_type p.publisher_type publisher_file
    then (none, p ∷ l)
    else (none, l ++ p ∷ [])

unfoldable pub add_unique : Publisher → List Publisher → Option PublishError × List Publisher
unfolding remove_type add_publisher
add_unique p l = add_publisher p (remove_type p.publisher_type l)

-- The types of which add keeps one. PUBLISHER_DRIVER_COMMAND is tested twice there.
unfoldable pub is_unique : PublisherType → Bool
is_unique t =
    same_type t publisher_driver_command
    || same_type t publisher_driver_command
    || same_type t publisher_instrument_command
    || same_type t publisher_instrument_data

unfoldable pub add : Publisher → List Publisher → Option PublishError × List Publisher
unfolding has_duplicate add_unique is_unique
add p l =
    if has_duplicate p l
    then (none, l)
    else if is_unique p.publisher_type
    then add_unique p l
    else add_publisher p l

unfoldable pub search_by_type : PublisherType → List Publisher → Option Publisher
search_by_type t [] = none
search_by_type t (i ∷ l) =
    let rest = search_by_type t l in if same_type i.publisher_type t then some i else rest

-- Publisher::publish as a call that might raise; it catches every OOIException itself.
abbrev pub publish_of : Surroundings → Publisher → PacketView → Bytes × Answer × Publisher
publish_of env p v = let (out, b, i) = publish env p v in (out, returned b, i)

-- The catch of publish: the message of an exception is added to the others. `what` is what() of
-- an exception.
abbrev pub add_error : (what : PublishError → Bytes) → Answer → (error : Bytes) → Bytes
add_error what (returned b) error = error
add_error what (raised e) error =
    error ++ (codes "<Publish Type> error: " ++ (what e ++ codes "\n"))

-- The loop of publish: each publisher in turn. What it meets outside may depend on all that the
-- publishers before it sent.
unfoldable pub publish_loop :
    (env : List Bytes → Surroundings) (what : PublishError → Bytes) (sent : List Bytes)
    (error : Bytes)
    → List Publisher
    → PacketView
    → List Bytes × Bytes × List Publisher
unfolding publish
publish_loop env what sent error [] v = (sent, error, [])
publish_loop env what sent error (i ∷ l) v =
    let (out, answer, p) = publish_of (env sent) i v in
    let (all, errors, l') =
      publish_loop env what (sent ++ out ∷ []) (add_error what answer error) l v in
    (all, errors, p ∷ l')

-- publish: what is sent, in order, the answer, and the publishers with their errors.
unfoldable pub publish_all :
    (env : List Bytes → Surroundings) (what : PublishError → Bytes)
    → List Publisher
    → PacketView
    → List Bytes × Answer × List Publisher
unfolding publish_loop
publish_all env what l v =
    let (sent, error, l') = publish_loop env what [] [] l v in
    (sent, if not (length error == 0) then raised packet_publish_failure else returned true, l')
