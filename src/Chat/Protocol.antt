-- ===== src/Chat/Protocol.antt =====
-- Examples/ChatServer/ChatProtocol.h: the packets, as the bytes that a little-endian machine sends, and what
-- the server uses of C strings.
use kancho_net.Common.{
  ℕ, ◌-◌, ◌*◌, ◌+◌, ◌/◌, ◌%◌, List, [], ◌∷◌, ◌++◌, Option, none, some, ◌==◌, ltb, if◌then◌else◌,
  length, get_or, replicate, ◌>>=◌,
}

-- `PacketType`, where the server reads or writes it.
abbrev pub login_type : ℕ
login_type = 1

abbrev pub login_response_type : ℕ
login_response_type = 2

abbrev pub message_type : ℕ
message_type = 3

abbrev pub broadcast_type : ℕ
broadcast_type = 4

abbrev pub logout_type : ℕ
logout_type = 5

abbrev pub header_size : ℕ
header_size = 4

-- `sizeof` of `LoginResponsePacket`, with the byte of padding at its end, and of `MessageBroadcastPacket`.
abbrev pub response_size : ℕ
response_size = 70

abbrev pub broadcast_size : ℕ
broadcast_size = 292

-- A `PacketHeader`: its size and its type, a word each.
unfoldable pub header : ℕ → ℕ → List ℕ
header size type = size % 256 ∷ size / 256 % 256 ∷ type % 256 ∷ type / 256 % 256 ∷ []

-- `header->type`
unfoldable pub packet_type : List ℕ → ℕ
packet_type data_bytes = get_or data_bytes 2 0 + 256 * get_or data_bytes 3 0

-- The string at a `const char*`: the bytes before the first 0, or none if the memory ends before one.
unfoldable pub c_string : List ℕ → Option (List ℕ)
c_string [] = none
c_string (b ∷ bs) =
    let rest = c_string bs in if b == 0 then some [] else (rest >>= λ s. some (b ∷ s))

-- `strcpy_s` into an array of zeros: the array, or none where its runtime constraint is violated, which
-- ends the program.
unfoldable pub strcpy_s : ℕ → List ℕ → Option (List ℕ)
strcpy_s capacity s =
    if ltb (length s) capacity then some (s ++ replicate (capacity - length s) 0) else none

-- "Welcome to KanchoNet Chat Server!"
abbrev pub welcome : List ℕ
welcome =
    87 ∷ 101 ∷ 108 ∷ 99 ∷ 111 ∷ 109 ∷ 101 ∷ 32 ∷ 116 ∷ 111 ∷ 32 ∷ 75 ∷ 97 ∷ 110 ∷ 99 ∷ 104 ∷ 111
    ∷ 78 ∷ 101 ∷ 116 ∷ 32 ∷ 67 ∷ 104 ∷ 97 ∷ 116 ∷ 32 ∷ 83 ∷ 101 ∷ 114 ∷ 118 ∷ 101 ∷ 114 ∷ 33 ∷ []

-- The `LoginResponsePacket` that HandleLogin makes.
unfoldable pub login_response : Option (List ℕ)
login_response = strcpy_s 64 welcome >>= λ message.
    some (header response_size login_response_type ++ (1 ∷ (message ++ (0 ∷ []))))

-- The `MessageBroadcastPacket` that HandleMessage makes.
unfoldable pub broadcast : List ℕ → List ℕ → Option (List ℕ)
broadcast username message = strcpy_s 32 username >>= λ u.
    strcpy_s 256 message >>= λ m. some (header broadcast_size broadcast_type ++ (u ++ m))
