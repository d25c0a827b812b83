-- ===== src/Device/Copy.antt =====
-- copyToDevice of httptap.go: what is queued for the subprocess is written to the TUN device.
use httptap.Shared.{
  ◌≡◌, refl, ap, sym, ◌∙◌, Bool, true, false, if◌then◌else◌, Option, List, [], ◌∷◌, ◌++◌,
  append-nil, append_assoc, Error, Chan, send, room,
}
use httptap.Packet.{Bytes}

-- The channel, the packets that were handed to Write of the device, and whether the loop has
-- returned.
pub record Copier : Type 0 where
  pub src : Chan Bytes
  pub written : List Bytes
  pub returned : Bool

-- Somebody queues a packet, unless that would block; the select of the loop finds a packet, which
-- Write takes with an error or without; or it finds that the context is done.
pub data Event : Type 0 where
  queue : Bytes → Event
  found_packet : Option Error → Event
  context_done : Event

-- One packet. An error in writing is reported, and the packet is dropped.
abbrev copy_one : Copier → List Bytes → Copier
copy_one c [] = c
copy_one c (packet ∷ packets) = record c {
  src = record c.src { items = packets };
  written = c.written ++ packet ∷ [];
}

unfoldable pub copy_step : Event → Copier → Copier
copy_step (queue packet) c = record c { src = send c.src packet }
copy_step (found_packet failure) c = if c.returned then c else copy_one c c.src.items
copy_step context_done c = record c { returned = true }

unfoldable pub copy_to_device : List Event → Copier → Copier
unfolding copy_step
copy_to_device [] c = c
copy_to_device (e ∷ es) c = copy_to_device es (copy_step e c)

-- The packets for which the channel has room when they come.
abbrev accepted_by : Event → Copier → List Bytes
accepted_by (queue packet) c = if room c.src then packet ∷ [] else []
accepted_by _ c = []

abbrev pub accepted : List Event → Copier → List Bytes
accepted [] c = []
accepted (e ∷ es) c = accepted_by e c ++ accepted es (copy_step e c)

abbrev pub in_order : Copier → List Bytes
in_order c = c.written ++ c.src.items

copy_one-in_order :
    (c : Copier) (items : List Bytes)
    → c.src.items ≡ items
    → in_order (copy_one c items) ≡ in_order c
copy_one-in_order c [] e = refl
copy_one-in_order c (p ∷ ps) e =
    append_assoc c.written (p ∷ []) ps ∙ ap (λ l. c.written ++ l) (sym e)

copy_step-in_order :
    (e : Event) (c : Copier) → in_order (copy_step e c) ≡ in_order c ++ accepted_by e c
unfolding copy_step
copy_step-in_order (queue packet) c =
    elim (room c.src)
      as (λ b.
        c.written
          ++ (if b then record c.src { items = c.src.items ++ packet ∷ [] } else c.src).items
        ≡ in_order c ++ (if b then packet ∷ [] else [])) [
          | true ↦ sym (append_assoc c.written c.src.items (packet ∷ []))
          | false ↦ sym (append-nil (in_order c))
        ]
copy_step-in_order (found_packet failure) c =
    elim c.returned
      as (λ b. in_order (if b then c else copy_one c c.src.items) ≡ in_order c ++ []) [
        | true ↦ sym (append-nil (in_order c))
        | false ↦ copy_one-in_order c c.src.items refl ∙ sym (append-nil (in_order c))
      ]
copy_step-in_order context_done c = sym (append-nil (in_order c))

-- In any order in which packets are queued and taken, the context ends, and writes fail, the packets
-- that are handed to Write of the device and those that are still queued are, in this order, exactly
-- those that were there before and those for which the channel had room: none of these is lost,
-- doubled or overtaken on the way.
pub copy_to_device_fifo :
    (es : List Event) (c : Copier) → in_order (copy_to_device es c) ≡ in_order c ++ accepted es c
unfolding copy_to_device
copy_to_device_fifo [] c = sym (append-nil (in_order c))
copy_to_device_fifo (e ∷ es) c =
    copy_to_device_fifo es (copy_step e c)
    ∙ ap (λ l. l ++ accepted es (copy_step e c)) (copy_step-in_order e c)
    ∙ append_assoc (in_order c) (accepted_by e c) (accepted es (copy_step e c))
