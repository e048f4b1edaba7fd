-- ===== src/Object/Channel/Mishaps.antt =====
-- What goes wrong in object/backend/channel/backend.go.
use omnistorage_core.Base.{
  ℕ, ◌≡◌, refl, ap, sym, ◌∙◌, true, false, none, some, List, [], ◌∷◌, ◌++◌, arith, ltb, ◌==◌,
  ==-refl, length, list_eq, nat_eq, ok, Option, Result, Bool-cases, inl, inr,
}
use mathlib.Core.Path.{subst}
use omnistorage_core.Base.Dict
use omnistorage_core.Base.Text.{Text}
use omnistorage_core.Object.{Error}
use omnistorage_core.Object.Channel.{
  Backend, Reader, Writer, Sent, put, shut, ChannelInfo, check, get_or_create_channel, new_reader,
  prepare_write, send, write, close_writer,
}
use omnistorage_core.Object.Channel.Streams.{pending, concat-append}
use omnistorage_core.Object.Hashing.{concat}

closed-shut : (i : ℕ) (b : Backend) → ((shut i b).infos i).closed ≡ true
closed-shut i b = elim (Bool-cases (b.infos i).closed) [
  | inl gone ↦ rw (shut, gone) gone
  | inr live ↦ rw (shut, live, ==-refl i) refl
]

-- A `Write` that has found its channel open panics where another writer of the channel is closed before
-- the send: both writers were open, and no context is cancelled.
pub write_panics :
    (w other : Writer) (content : List ℕ) (b : Backend)
    → w.closed ≡ false
    → other.closed ≡ false
    → other.info ≡ w.info
    → (b.infos w.info).closed ≡ false
    → let (b1, refused) = prepare_write none w content b in
      (refused ≡ none) × ((send none w content (close_writer other b1).1).1 ≡ Sent.panics)
unfolding prepare_write close_writer send
write_panics w other content b ready ready' same live =
    let b1 = (prepare_write none w content b).0 in
    let b2 = (close_writer other b1).1 in
    let closed : b2 ≡ shut w.info b1 = ground (arith, ready', same) in
    let gone : (b2.infos w.info).closed ≡ true =
      ap (λ (x : Backend). (x.infos w.info).closed) closed ∙ closed-shut w.info b1 in
    (ground (arith, ready, live), ground (arith, gone))

send-put :
    (w : Writer) (content : List ℕ) (b : Backend) (info : ChannelInfo)
    → b.infos w.info ≡ info
    → info.closed ≡ false
    → ltb (length info.ch) b.buffer_size ≡ true
    → send none w content b
      ≡ (put w.info (record info { ch = info.ch ++ content ∷ [] }) b, Sent.sent (length content))
unfolding send
send-put w content b info here live room = ground (arith, here, live, room)

module _ (w : Writer) (content : List ℕ) (b : Backend) (persistent : b.persistent ≡ true)
    (ready : w.closed ≡ false) (live : (b.infos w.info).closed ≡ false)
    (room : ltb (length (b.infos w.info).ch) b.buffer_size ≡ true) where
  -- the channel's state after the write
  abbrev written : ChannelInfo
  written =
      let info = b.infos w.info in
      record {
        ch = info.ch ++ content ∷ [];
        closed = false;
        buffered = info.buffered ++ content ∷ [];
      }

  abbrev prepared_info : ChannelInfo
  prepared_info = record {
    ch = (b.infos w.info).ch;
    closed = false;
    buffered = (b.infos w.info).buffered ++ content ∷ [];
  }

  prepared : prepare_write none w content b ≡ (put w.info prepared_info b, none)
  unfolding prepare_write
  prepared = rw (prepare_write, ready, persistent, live) refl

  write-put :
      write none none w content b
      ≡ (put w.info written (put w.info prepared_info b), Sent.sent (length content))
  unfolding write
  write-put =
      let finish : Backend × Option Error → Backend × Sent =
        λ x. elim x.1 [ some e ↦ (x.0, Sent.failed e) | none ↦ send none w content x.0 ] in
      ap finish prepared
      ∙ send-put w content (put w.info prepared_info b) prepared_info (rw (==-refl w.info) refl)
          refl room

  write-info :
      let (b', outcome) = write none none w content b in
      (outcome ≡ Sent.sent (length content))
      × (b'.infos w.info ≡ written)
      × (b'.channels ≡ b.channels)
      × (b'.persistent ≡ true)
      × (b'.closed ≡ b.closed)
  write-info =
      subst
        (λ (x : Backend × Sent).
          (x.1 ≡ Sent.sent (length content))
          × (x.0.infos w.info ≡ written)
          × (x.0.channels ≡ b.channels)
          × (x.0.persistent ≡ true)
          × (x.0.closed ≡ b.closed))
        (sym write-put) (refl, rw (==-refl w.info) refl, refl, persistent, refl)

  -- In persistent mode, a `Write` that is accepted stands twice in what a reader that is opened afterwards
  -- has coming: once in what is replayed, and once in the channel. The backend and the channel are open, the
  -- channel has room, and the path leads to it.
  pub replayed_twice :
      (path : Text)
      → b.closed ≡ false
      → Dict.lookup path b.channels ≡ some w.info
      → (path == []) ≡ false
      → let (b', outcome) = write none none w content b in
        let info = b.infos w.info in
        (outcome ≡ Sent.sent (length content))
        × ((r : Reader) × ((new_reader none path b').1 ≡ ok r)
            × (pending r (new_reader none path b').0
                ≡ (concat info.buffered ++ content) ++ (concat info.ch ++ content)))
  unfolding new_reader get_or_create_channel check
  replayed_twice path open_ found named =
      let (fine, info, channels, replays, still_open) = write-info in
      let b' = (write none none w content b).0 in
      let found' : Dict.lookup path b'.channels ≡ some w.info = rw channels found in
      let r : Reader = record {
        info = w.info;
        buffer = concat (b'.infos w.info).buffered;
        current = [];
        offset = 0;
        closed = false;
      } in
      let opened : new_reader none path b' ≡ (b', ok r) =
        ground (arith, still_open, open_, found', named, replays) in
      (
        fine,
        (
          r,
          ap (λ (x : Backend × Result Error Reader). x.1) opened,
          ap (λ (x : ChannelInfo). concat (b'.infos w.info).buffered ++ concat x.ch)
                (ap (λ (x : Backend × Result Error Reader). x.0.infos w.info) opened ∙ info)
              ∙ ap (λ (x : ChannelInfo). concat x.buffered ++ concat written.ch) info
              ∙ ap (λ cs. cs ++ concat written.ch) (concat-append (b.infos w.info).buffered content)
              ∙ ap (λ cs. (concat (b.infos w.info).buffered ++ content) ++ cs)
                  (concat-append (b.infos w.info).ch content),
        ),
      )
