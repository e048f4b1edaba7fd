-- ===== src/Tests/Channels.antt =====
-- Runs of the backend on channels (object/backend/channel), and instances of the theorems on it.
use omnistorage_core.Base.{
  ℕ, ◌≡◌, refl, true, false, none, List, [], ◌∷◌, ◌++◌, list_eq, nat_eq, ok,
}
use omnistorage_core.Base.Dict
use omnistorage_core.Base.Text.{bytes}
use omnistorage_core.Object.Channel
use omnistorage_core.Object.Channel.{
  Backend, Writer, Reader, Sent, Received, new, new_writer, new_reader, write, read, prepare_write,
  send, close_writer,
}
use omnistorage_core.Object.Channel.Delivery
use omnistorage_core.Object.Channel.Delivery.{Event, run, start, run_delivers}
use omnistorage_core.Object.Channel.Mishaps.{write_panics, replayed_twice}
use omnistorage_core.Object.Channel.Streams.{pending}

program : Unit {0}
unfolding Channel.check Channel.get_or_create_channel Channel.new_writer Channel.new_reader
    Channel.prepare_write Channel.send Channel.write Channel.close_writer Channel.read
    Channel.close_reader Delivery.step Delivery.run Dict.lookup Dict.insert list_eq nat_eq
program = tt

-- one channel, for two messages
abbrev b : Backend
b = (new_writer none (bytes "events") (new 2 true)).0

abbrev w : Writer
w = record { info = 0; closed = false }

abbrev r : Reader
r = record { info = 0; buffer = []; current = []; offset = 0; closed = false }

opened : (new_writer none (bytes "events") (new 2 true)).1 ≡ ok w
unfolding program
opened = refl

-- The third write waits until a message has been read.
abbrev events : List Event
events =
    Event.write_event none none false (1 ∷ 2 ∷ 3 ∷ [])
    ∷ Event.write_event none none false (4 ∷ [])
    ∷ Event.write_event none none false (5 ∷ [])
    ∷ Event.read_event none none 2
    ∷ Event.close_event
    ∷ Event.write_event none none false (6 ∷ [])
    ∷ Event.read_event none none 2
    ∷ Event.read_event none none 2
    ∷ []

abbrev all : List ℕ
all = 1 ∷ 2 ∷ 3 ∷ 4 ∷ []

run_delivers_example :
    (all ++ pending (run events (start r b)).reader (run events (start r b)).backend ≡ [] ++ all)
    × ((read none none 2 (run events (start r b)).reader (run events (start r b)).backend).2
          ≡ Received.eof
        → all ≡ [] ++ all)
unfolding program
run_delivers_example = run_delivers r b events none none 2

at_the_end :
    (read none none 2 (run events (start r b)).reader (run events (start r b)).backend).2
    ≡ Received.eof
unfolding program
at_the_end = refl

live : (b.infos 0).closed ≡ false
unfolding program
live = refl

write_panics_example :
    ((prepare_write none w (1 ∷ []) b).1 ≡ none)
    × ((send none w (1 ∷ []) (close_writer w (prepare_write none w (1 ∷ []) b).0).1).1
        ≡ Sent.panics)
write_panics_example = write_panics w w (1 ∷ []) b refl refl refl live

replayed_twice_example :
    let b' = (write none none w (7 ∷ 8 ∷ []) b).0 in
    ((write none none w (7 ∷ 8 ∷ []) b).1 ≡ Sent.sent 2)
    × ((x : Reader) × ((new_reader none (bytes "events") b').1 ≡ ok x)
        × (pending x (new_reader none (bytes "events") b').0 ≡ 7 ∷ 8 ∷ 7 ∷ 8 ∷ []))
unfolding program
replayed_twice_example =
    replayed_twice w (7 ∷ 8 ∷ []) b refl refl refl refl (bytes "events") refl refl refl
