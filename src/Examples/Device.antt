-- ===== src/Examples/Device.antt =====
-- The theorem on the device loop, for an error and the SYN of a connection.
use httptap.Shared.{
  make_chan, codes, false, ◌≡◌, refl, none, some, List, [], ◌∷◌, eof, Result, ok, err, ℕ, arith,
}
use httptap.Tcp.Stack.{new_tcp_stack}
use httptap.Udp.{new_udp_stack}
use httptap.Device.{Layers, Device, read_from_device}
use httptap.Device.Copy.{
  copy_step, Copier, queue, found_packet, copy_to_device, in_order, copy_to_device_fifo,
}
use httptap.Device.Loop.{IsReady, read_from_device_goes_on}
use httptap.Examples.Data.{packets, ip_out, syn, web_mux, link}

abbrev device : Device ℕ ℕ
device = record { tcp_stack = new_tcp_stack web_mux link; udp_stack = new_udp_stack web_mux link }

device-IsReady : IsReady device
unfolding new_tcp_stack new_udp_stack
device-IsReady = record { free = refl; bounded = omega arith; same_app = refl; same_link = refl }

abbrev reads : List (Result Layers)
reads = err eof ∷ ok (record { ipv4 = some ip_out; tcp = some syn; udp = none }) ∷ []

read_from_device_goes_on_example :
    (d' : Device ℕ ℕ) × (read_from_device packets reads device ≡ some d') × IsReady d'
read_from_device_goes_on_example = read_from_device_goes_on packets reads device device-IsReady

abbrev copier : Copier
copier = record { src = make_chan 1; written = []; returned = false }

-- The second packet finds the channel full, and the write of the first one fails.
copy_to_device_fifo_example :
    in_order (
      copy_to_device
        (queue (codes "a") ∷ queue (codes "b") ∷ found_packet (some eof) ∷ queue (codes "c") ∷ [])
        copier)
    ≡ codes "a" ∷ codes "c" ∷ []
unfolding copy_step
copy_to_device_fifo_example =
    copy_to_device_fifo
      (queue (codes "a") ∷ queue (codes "b") ∷ found_packet (some eof) ∷ queue (codes "c") ∷ [])
      copier
