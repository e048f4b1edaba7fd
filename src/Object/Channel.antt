-- ===== src/Object/Channel.antt =====
-- object/backend/channel/backend.go: a backend on Go channels with a buffer of at least one message.
-- What an object refers to by a pointer is known by a number here. `ctx` is what `ctx.Err()` returns;
-- in a `select` it is none where another case is taken.
pub mod Streams
pub mod Delivery
pub mod Mishaps
use omnistorage_core.Base.{
  ℕ, ◌+◌, Bool, true, false, not, ◌||◌, Option, none, some, List, [], ◌∷◌, ◌++◌, ltb, ◌==◌, length,
  take, drop, if◌then◌else◌, list_eq, nat_eq, Result, ok, err,
}
use omnistorage_core.Base.Dict
use omnistorage_core.Base.Dict.{Dict}
use omnistorage_core.Base.Sort.{sort}
use omnistorage_core.Base.Text.{Text, has_prefix, text_lt}
use omnistorage_core.Object.{Error}
use omnistorage_core.Object.Hashing.{concat}

-- `channelInfo`, with the messages that stand in its channel
pub record ChannelInfo : Type 0 where
  pub ch : List (List ℕ)
  pub closed : Bool
  pub buffered : List (List ℕ)

-- `Backend`; `infos` is the memory that pointers to a `channelInfo` lead to, and `next` is unused there.
pub record Backend : Type 0 where
  pub channels : Dict Text ℕ
  pub infos : ℕ → ChannelInfo
  pub next : ℕ
  pub buffer_size : ℕ
  pub persistent : Bool
  pub closed : Bool

abbrev pub fresh_info : ChannelInfo
fresh_info = record { ch = []; closed = false; buffered = [] }

-- `New`, with the size and the persistence that its options set
abbrev pub new : ℕ → Bool → Backend
new buffer_size persistent = record {
  channels = [];
  infos = λ i. fresh_info;
  next = 0;
  buffer_size = buffer_size;
  persistent = persistent;
  closed = false;
}

-- the store of a channel's state
abbrev pub put : ℕ → ChannelInfo → Backend → Backend
put i info b = record b { infos = λ j. if j == i then info else b.infos j }

-- `close(info.ch)`, unless it is closed
abbrev pub shut : ℕ → Backend → Backend
shut i b = if (b.infos i).closed then b else put i (record (b.infos i) { closed = true }) b

-- `checkClosed`, and the check of the context that follows it
unfoldable pub check : Option Error → Backend → Option Error
check ctx b = if b.closed then some Error.backend_closed else ctx

-- `getOrCreateChannel`
unfoldable pub get_or_create_channel : Text → Backend → Backend × ℕ
get_or_create_channel path b = elim (Dict.lookup path b.channels) [
  | some i ↦ (b, i)
  | none ↦ (
    record b {
      channels = Dict.insert path b.next b.channels;
      infos = λ j. if j == b.next then fresh_info else b.infos j;
      next = b.next + 1;
    },
    b.next,
  )
]

-- `channelWriter`
pub record Writer : Type 0 where
  pub info : ℕ
  pub closed : Bool

-- `channelReader`
pub record Reader : Type 0 where
  pub info : ℕ
  pub buffer : List ℕ
  pub current : List ℕ
  pub offset : ℕ
  pub closed : Bool

-- `NewWriter`
unfoldable pub new_writer : Option Error → Text → Backend → Backend × Result Error Writer
new_writer ctx path b =
    let (b', i) = get_or_create_channel path b in
    elim (check ctx b) [
      | some e ↦ (b, err e)
      | none ↦
          if path == []
          then (b, err Error.invalid_path)
          else (b', ok (record { info = i; closed = false }))
    ]

-- `NewReader`
unfoldable pub new_reader : Option Error → Text → Backend → Backend × Result Error Reader
new_reader ctx path b =
    let (b', i) = get_or_create_channel path b in
    elim (check ctx b) [
      | some e ↦ (b, err e)
      | none ↦ if path == [] then (b, err Error.invalid_path) else (
        b',
        ok (record {
          info = i;
          buffer = if b.persistent then concat (b'.infos i).buffered else [];
          current = [];
          offset = 0;
          closed = false;
        }),
      )
    ]

-- `Exists`
unfoldable pub exists : Option Error → Text → Backend → Result Error Bool
exists ctx path b = elim (check ctx b) [
  | some e ↦ err e
  | none ↦ ok (Dict.is_some (Dict.lookup path b.channels))
]

-- `Delete`
unfoldable pub delete : Option Error → Text → Backend → Backend × Option Error
delete ctx path b = elim (check ctx b) [
  | some e ↦ (b, some e)
  | none ↦ elim (Dict.lookup path b.channels) [
    | none ↦ (b, none)
    | some i ↦ (record (shut i b) { channels = Dict.erase path b.channels }, none)
  ]
]

abbrev is_listed : Text → Text → Bool
is_listed prefix path = prefix == [] || has_prefix path prefix

-- `List`
unfoldable pub list : Option Error → Text → Backend → Result Error (List Text)
list ctx prefix b = elim (check ctx b) [
  | some e ↦ err e
  | none ↦ ok (sort text_lt (Dict.keys (Dict.retain (λ path i. is_listed prefix path) b.channels)))
]

unfoldable pub shut_each : Dict Text ℕ → Backend → Backend
shut_each [] b = b
shut_each ((path, i) ∷ d) b = shut_each d (shut i b)

-- `Close`
unfoldable pub close : Backend → Backend
close b =
    if b.closed
    then b
    else record (shut_each b.channels (record b { closed = true })) { channels = [] }

-- What a send without waiting makes of a channel: a full one is passed over.
abbrev pub offer : List ℕ → ℕ → Backend → Backend
offer content i b =
    let info = b.infos i in
    if not info.closed
    then (if ltb (length info.ch) b.buffer_size
        then put i (record info { ch = info.ch ++ content ∷ [] }) b
        else b)
    else b

-- the loop of `Broadcast`; `cancelled` is a context that a round's `select` takes note of
unfoldable pub broadcast_each :
    (ℕ → Option Error) → Text → List ℕ → Dict Text ℕ → Backend → Backend × Option Error
broadcast_each cancelled prefix content [] b = (b, none)
broadcast_each cancelled prefix content ((path, i) ∷ d) b =
    let passed = broadcast_each cancelled prefix content d b in
    let sent = broadcast_each cancelled prefix content d (offer content i b) in
    if not (is_listed prefix path)
    then passed
    else if (b.infos i).closed
    then passed
    else elim (cancelled i) [ some e ↦ (b, some e) | none ↦ sent ]

-- `Broadcast`
unfoldable pub broadcast : (ℕ → Option Error) → Text → List ℕ → Backend → Backend × Option Error
broadcast cancelled prefix content b =
    if b.closed
    then (b, some Error.backend_closed)
    else broadcast_each cancelled prefix content b.channels b

-- `ChannelCount`
unfoldable pub channel_count : Backend → ℕ
channel_count b = length b.channels

-- `io.ErrClosedPipe`
abbrev pub closed_pipe : Error
closed_pipe = Error.other 2

-- What `Write` finds before it sends; `some` is an error.
unfoldable pub prepare_write : Option Error → Writer → List ℕ → Backend → Backend × Option Error
prepare_write ctx w content b =
    let info = b.infos w.info in
    let b' =
      if b.persistent
      then put w.info (record info { buffered = info.buffered ++ content ∷ [] }) b
      else b in
    if w.closed then (b, some Error.writer_closed) else elim ctx [
      | some e ↦ (b, some e)
      | none ↦ if info.closed then (b', some closed_pipe) else (b', none)
    ]

-- how a `Write` ends, or that it waits; to send on a closed channel panics
pub data Sent : Type 0 where
  sent : ℕ → Sent
  failed : Error → Sent
  waits panics : Sent

-- the send of `Write`
unfoldable pub send : Option Error → Writer → List ℕ → Backend → Backend × Sent
send ctx w content b =
    let info = b.infos w.info in
    elim ctx [
      | some e ↦ (b, Sent.failed e)
      | none ↦
          if info.closed
          then (b, Sent.panics)
          else if ltb (length info.ch) b.buffer_size
          then (
            put w.info (record info { ch = info.ch ++ content ∷ [] }) b,
            Sent.sent (length content),
          )
          else (b, Sent.waits)
    ]

-- `Write`, where nothing else comes in between
unfoldable pub write : Option Error → Option Error → Writer → List ℕ → Backend → Backend × Sent
write ctx ctx' w content b =
    let (b', refused) = prepare_write ctx w content b in
    elim refused [ some e ↦ (b', Sent.failed e) | none ↦ send ctx' w content b' ]

-- `channelWriter.Close`
unfoldable pub close_writer : Writer → Backend → Writer × Backend
close_writer w b = if w.closed then (w, b) else (record w { closed = true }, shut w.info b)

-- how a `Read` ends, or that it waits
pub data Received : Type 0 where
  received : List ℕ → Received
  failed : Error → Received
  eof waits : Received

-- `channelReader.Read` into `n` bytes
unfoldable pub read :
    Option Error → Option Error → ℕ → Reader → Backend → Reader × Backend × Received
read ctx ctx' n r b =
    let left = take n (drop r.offset r.current) in
    let info = b.infos r.info in
    if r.closed then (r, b, Received.failed Error.reader_closed) else elim ctx [
      | some e ↦ (r, b, Received.failed e)
      | none ↦
          if not (r.buffer == [])
          then (record r { buffer = drop n r.buffer }, b, Received.received (take n r.buffer))
          else if ltb r.offset (length r.current)
          then (record r { offset = r.offset + length left }, b, Received.received left)
          else elim ctx' [
            | some e ↦ (r, b, Received.failed e)
            | none ↦ elim info.ch [
              | [] ↦ (r, b, if info.closed then Received.eof else Received.waits)
              | message ∷ messages ↦ (
                record r { current = message; offset = length (take n message) },
                put r.info (record info { ch = messages }) b,
                Received.received (take n message),
              )
            ]
          ]
    ]

-- `channelReader.Close`
unfoldable pub close_reader : Reader → Reader
close_reader r = record r { closed = true }
