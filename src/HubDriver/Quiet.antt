-- ===== src/HubDriver/Quiet.antt =====
-- The requests of `Hub::new` in driver/hub.rs: it resets no port.
use async_usb_host.Prelude.{
  ℕ, zero, suc, ◌+◌, ◌%◌, ◌^◌, ◌≡◌, refl, false, Option, none, some, List, [], ◌∷◌, length,
  replicate, leb, ltb, ◌==◌, Bool-cases, inl, inr,
}
use async_usb_host.Errors.{Outcome, ok, err, panics, Result, done, failed, buffer_overflow}
use async_usb_host.Types.{DeviceHandle, EndpointAddress}
use async_usb_host.Request.{
  Request, class, standard, to_other, get_descriptor, get_status, set_feature, set_configuration,
  get_configuration_descriptor, request_code, RequestTypeType,
}
use async_usb_host.Descriptor.{
  Descriptor, device, configuration, interface, endpoint, unknown_descriptor, DescriptorIterator,
  new_iterator, next,
}
use async_usb_host.Descriptor.Hub.{
  HubPortStatus, HubPortStatusChange, port_power, powered, feature_code,
}
use async_usb_host.Pipe.Bus.{Async, ◌>>=◌, ◌>>◌, return, raise, attempt}
use async_usb_host.Pipe.Control.{control_transfer, assert}
use async_usb_host.Pipe.Addressing.{}
use async_usb_host.Pipe.Requests.{Puts, then-Puts, attempt-Puts, branch-Puts}
use async_usb_host.Pipe.Requests.Transfers.{control_transfer-Puts, assert-Puts}
use async_usb_host.Driver.{read_configuration, asked_with, by_length, by_first, peeked}
use async_usb_host.Driver.Items.{item_then, items_from, for_items}
use async_usb_host.HubDriver.{Hub, get_port_status, set_port_feature}
use async_usb_host.HubDriver.Setup.{
  visit_hub, cast_hub, for_ports, enable_port, ask_port, power_if_off, power_port, make_hub,
  new_hub,
}
use async_usb_host.HubDriver.Resets.{is_port_reset, resets, get_port_status-Puts, status-NoReset}

-- The request that a constructor makes is no reset, if it does not panic.
abbrev IsQuiet : Outcome Request → Type 0
IsQuiet (ok req) = is_port_reset req ≡ false
IsQuiet (err e) = Unit {0}
IsQuiet panics = Unit {0}

descriptor-Quiet : (t : ℕ) (r : RequestTypeType) (i l n : ℕ) → IsQuiet (get_descriptor t r i l n)
unfolding get_descriptor request_code
descriptor-Quiet t r i l n = elim (Bool-cases (ltb 0 n)) [ inl e ↦ rw e refl | inr e ↦ rw e tt ]

power-NoReset : (port : ℕ) → is_port_reset (set_feature to_other class 8 port 0) ≡ false
unfolding set_feature feature_code request_code
power-NoReset port = refl

module _ (n : ℕ) where
  asked_with-Puts : (o : Outcome Request) → Puts (resets n) (asked_with o)
  asked_with-Puts (ok req) b s = s
  asked_with-Puts (err e) b s = s
  asked_with-Puts panics b s = s

  -- A transfer of a request that was made.
  asked-Puts :
      {A : Type 0} (o : Outcome Request) (k : Request → Async A)
      → IsQuiet o
      → ((req : Request) → is_port_reset req ≡ false → Puts (resets n) (k req))
      → Puts (resets n) (asked_with o >>= k)
  asked-Puts (ok req) k q h b s = h req q b s
  asked-Puts (err e) k q h b s = s
  asked-Puts panics k q h b s = s

  by_length-Puts : (size total : ℕ) (bytes : List ℕ) → Puts (resets n) (by_length size total bytes)
  by_length-Puts size total bytes =
      branch-Puts (resets n) (total == length bytes) (return (new_iterator bytes)) _ (λ b s. s)
        (branch-Puts (resets n) (ltb size total) (raise buffer_overflow)
          (return (new_iterator bytes)) (λ b s. s) (λ b s. s))

  by_first-Puts :
      (size : ℕ) (bytes : List ℕ) (d : Descriptor) → Puts (resets n) (by_first size bytes d)
  by_first-Puts size bytes (configuration c) b s = by_length-Puts size c.total_length bytes b s
  by_first-Puts size bytes (device d) b s = s
  by_first-Puts size bytes (interface i) b s = s
  by_first-Puts size bytes (endpoint e) b s = s
  by_first-Puts size bytes (unknown_descriptor t l bs) b s = s

  peeked-Puts :
      (size : ℕ) (bytes : List ℕ) (o : Outcome (Option (Result Descriptor) × DescriptorIterator))
      → Puts (resets n) (peeked size bytes o)
  peeked-Puts size bytes (ok (some (done d), it)) b s = by_first-Puts size bytes d b s
  peeked-Puts size bytes (ok (some (failed e), it)) b s = s
  peeked-Puts size bytes (ok (none, it)) b s = s
  peeked-Puts size bytes (err e) b s = s
  peeked-Puts size bytes panics b s = s

  read-Puts : (handle : DeviceHandle) (size : ℕ) → Puts (resets n) (read_configuration handle size)
  unfolding read_configuration get_configuration_descriptor
  read-Puts handle size =
      asked-Puts (get_configuration_descriptor 0 (size % 2 ^ 16)) _
        (descriptor-Quiet 2 standard 0 0 (size % 2 ^ 16))
        (λ req q.
          then-Puts (resets n) (control_transfer handle req (replicate size 0))
            (λ bytes.
              assert (leb (length bytes) size) >> peeked size bytes (next (new_iterator bytes)))
            (control_transfer-Puts (resets n) handle req (replicate size 0) q)
            (λ bytes.
              then-Puts (resets n) (assert (leb (length bytes) size))
                (λ t. peeked size bytes (next (new_iterator bytes)))
                (assert-Puts (resets n) (leb (length bytes) size))
                (λ t. peeked-Puts size bytes (next (new_iterator bytes)))))

  module _ {S : Type 0} (visit : S → Descriptor → Async S)
      (h : (s : S) (d : Descriptor) → Puts (resets n) (visit s d)) where
    item_then-Puts :
        (rest : DescriptorIterator → S → Async S)
        → ((it : DescriptorIterator) (s : S) → Puts (resets n) (rest it s))
        → (s : S) (o : Outcome (Option (Result Descriptor) × DescriptorIterator))
        → Puts (resets n) (item_then rest visit s o)
    item_then-Puts rest hr s (ok (none, it)) b o = o
    item_then-Puts rest hr s (ok (some (done d), it)) b o =
        then-Puts (resets n) (visit s d) (rest it) (h s d) (hr it) b o
    item_then-Puts rest hr s (ok (some (failed e), it)) b o = o
    item_then-Puts rest hr s (err e) b o = o
    item_then-Puts rest hr s panics b o = o

    items_from-Puts :
        (k : ℕ) (it : DescriptorIterator) (s : S) → Puts (resets n) (items_from k visit it s)
    unfolding items_from
    items_from-Puts zero it s b o = o
    items_from-Puts (suc k) it s b o =
        item_then-Puts (items_from k visit) (items_from-Puts k) s (next it) b o

  for_ports-Puts :
      (k port : ℕ) (body : ℕ → Async (Unit {0}))
      → ((p : ℕ) → Puts (resets n) (body p))
      → Puts (resets n) (for_ports k port body)
  unfolding for_ports
  for_ports-Puts zero port body h b o = o
  for_ports-Puts (suc k) port body h b o =
      then-Puts (resets n) (body port) (λ t. for_ports k (port + 1) body) (h port)
        (λ t. for_ports-Puts k (port + 1) body h) b o

  powers-Puts : (hub : Hub) (port : ℕ) → Puts (resets n) (set_port_feature hub port port_power)
  unfolding set_port_feature feature_code
  powers-Puts hub port =
      then-Puts (resets n) (control_transfer hub.handle (set_feature to_other class 8 port 0) [])
        (λ t. return tt)
        (control_transfer-Puts (resets n) hub.handle (set_feature to_other class 8 port 0) []
          (power-NoReset port))
        (λ t b o. o)

  module _ (handle : DeviceHandle) where
    silent-Puts :
        (req : Request) (buffer : List ℕ)
        → is_port_reset req ≡ false
        → Puts (resets n) (control_transfer handle req buffer >> return tt)
    silent-Puts req buffer q =
        then-Puts (resets n) (control_transfer handle req buffer) (λ t. return tt)
          (control_transfer-Puts (resets n) handle req buffer q) (λ t b o. o)

    visit_hub-Puts :
        (found : Option EndpointAddress) (d : Descriptor)
        → Puts (resets n) (visit_hub handle found d)
    unfolding set_configuration request_code
    visit_hub-Puts found (configuration c) b o =
        then-Puts (resets n) (control_transfer handle (set_configuration c.value) [])
          (λ t. return found)
          (control_transfer-Puts (resets n) handle (set_configuration c.value) [] refl)
          (λ t b' o'. o') b o
    visit_hub-Puts none (endpoint e) b o = o
    visit_hub-Puts (some a) (endpoint e) b o = o
    visit_hub-Puts found (device d) b o = o
    visit_hub-Puts found (interface i) b o = o
    visit_hub-Puts found (unknown_descriptor t l bytes) b o = o

    power_port-Puts : (hub : Hub) (port : ℕ) → Puts (resets n) (power_port hub port)
    power_port-Puts hub port =
        then-Puts (resets n) (attempt (get_port_status hub port)) (power_if_off hub port)
          (attempt-Puts (resets n) (get_port_status hub port) (get_port_status-Puts n hub port))
          power
      where
        power :
            (r : Result (HubPortStatus × HubPortStatusChange))
            → Puts (resets n) (power_if_off hub port r)
        power (done words) b o =
            branch-Puts (resets n) (powered words.0) (return tt)
              (attempt (set_port_feature hub port port_power) >> return tt) (λ b' o'. o')
              (then-Puts (resets n) (attempt (set_port_feature hub port port_power))
                (λ t. return tt)
                (attempt-Puts (resets n) (set_port_feature hub port port_power)
                  (powers-Puts hub port))
                (λ t b' o'. o'))
              b o
        power (failed e) b o = o

    make_hub-Puts :
        (ports : ℕ) (found : Option EndpointAddress) → Puts (resets n) (make_hub handle ports found)
    make_hub-Puts ports none b o = o
    make_hub-Puts ports (some address) b o =
        then-Puts (resets n) (for_ports ports 1 (power_port _)) _
          (for_ports-Puts ports 1 (power_port _) (power_port-Puts _)) (λ t b' o'. o') b o

    -- The loops over the ports.
    ports-Puts :
        (ports : ℕ) (found : Option EndpointAddress)
        → Puts (resets n) (
            for_ports ports 1 (enable_port handle)
            >> (for_ports ports 1 (ask_port handle) >> make_hub handle ports found))
    ports-Puts ports found =
        then-Puts (resets n) (for_ports ports 1 (enable_port handle))
          (λ t. for_ports ports 1 (ask_port handle) >> make_hub handle ports found)
          (for_ports-Puts ports 1 (enable_port handle)
            (λ p. silent-Puts (set_feature to_other class 8 p 0) [] (power-NoReset p)))
          (λ t.
            then-Puts (resets n) (for_ports ports 1 (ask_port handle))
              (λ u. make_hub handle ports found)
              (for_ports-Puts ports 1 (ask_port handle) (λ p.
                silent-Puts (get_status to_other class 0 p 4) (0 ∷ 0 ∷ 0 ∷ 0 ∷ [])
                  (status-NoReset p)))
              (λ u. make_hub-Puts ports found))

    -- `Hub::new` resets no port.
    pub new_hub-Puts : Puts (resets n) (new_hub handle)
    unfolding new_hub
    new_hub-Puts =
        then-Puts (resets n) (read_configuration handle 255) _ (read-Puts handle 255) (λ iter.
          then-Puts (resets n) (for_items (visit_hub handle) iter none) _
            (λ b. items_from-Puts (visit_hub handle) visit_hub-Puts _ iter none b)
            (λ found.
              asked-Puts (get_descriptor 0x29 class 0 0 7) _ (descriptor-Quiet 0x29 class 0 0 7)
                (λ req q.
                  then-Puts (resets n) (control_transfer handle req (replicate 7 0)) _
                    (control_transfer-Puts (resets n) handle req (replicate 7 0) q)
                    (λ bytes. ports-Puts (cast_hub bytes).number_of_ports found))))
