-- ===== src/HubDriver/Events.antt =====
-- The event that a port of a hub leads to in driver/hub.rs.
use async_usb_host.Prelude.{
  ℕ, ◌<◌, ◌≡◌, refl, ap, Bool, true, false, Option, none, some, List, [], ◌∷◌, bit_or,
}
use async_usb_host.Errors.{ok}
use async_usb_host.Types.Port.{UsbSpeed, low_speed, full_speed, high_speed, PortInfo, new_port}
use async_usb_host.Types.Laws.{new_device_lem}
use async_usb_host.External.BitArray.{BitArray}
use async_usb_host.Address.{DeviceAddressManager, free_subtree}
use async_usb_host.Address.Tree.{IsTree}
use async_usb_host.Address.Detach.{free_subtree_flagless}
use async_usb_host.Request.{
  Request, request_code, class, to_other, clear_feature, set_feature, data_direction, set_recipient,
  set_type, set_data_direction, direction_code, type_code, recipient_code,
}
use async_usb_host.Descriptor.Hub.{
  HubPortFeature, port_reset, change_connection, change_reset, feature_code,
}
use async_usb_host.Pipe.Bus.{Reply, answered, Call, Bus, returned}
use async_usb_host.Pipe.Commands.{command_request, command, command_calls}
use async_usb_host.HubDriver.{
  Hub, HubEvent, device_reset, device_attach, device_detach, clear_port_feature, set_port_feature,
  translator, on_reset, on_port,
}

module _ (hub : Hub) (port : ℕ) (direct : hub.handle.parent.transaction_translator ≡ none) where
  clears :
      (f : HubPortFeature) (x y : List ℕ) (rs : List Reply) (cs : List Call)
      → clear_port_feature hub port f
          (record { replies = answered x ∷ answered y ∷ rs; calls = cs })
        ≡ (
          returned tt,
          record {
            replies = rs;
            calls =
                command_calls hub.handle (clear_feature to_other class (feature_code f) port 0) cs;
          },
        )
  unfolding clear_port_feature clear_feature data_direction set_recipient set_type
      set_data_direction direction_code type_code recipient_code
  clears f x y rs cs = rw (
      command hub.handle direct (clear_feature to_other class (feature_code f) port 0) x y rs cs
        refl refl)

  sets :
      (f : HubPortFeature) (x y : List ℕ) (rs : List Reply) (cs : List Call)
      → set_port_feature hub port f (record { replies = answered x ∷ answered y ∷ rs; calls = cs })
        ≡ (
          returned tt,
          record {
            replies = rs;
            calls =
                command_calls hub.handle (set_feature to_other class (feature_code f) port 0) cs;
          },
        )
  unfolding set_port_feature set_feature data_direction set_recipient set_type set_data_direction
      direction_code type_code recipient_code
  sets f x y rs cs = rw (
      command hub.handle direct (set_feature to_other class (feature_code f) port 0) x y rs cs refl
        refl)

  -- Only a hub of high speed translates, for a device of a lower speed.
  abbrev pub translating : (hub_speed device_speed : UsbSpeed) → Option (ℕ × ℕ)
  translating high_speed low_speed = some (hub.handle.address, port)
  translating high_speed full_speed = some (hub.handle.address, port)
  translating high_speed high_speed = none
  translating full_speed speed = none
  translating low_speed speed = none

  translator_lem : (s t : UsbSpeed) → translator hub port s t ≡ translating s t
  translator_lem high_speed low_speed = refl
  translator_lem high_speed full_speed = refl
  translator_lem high_speed high_speed = direct
  translator_lem full_speed low_speed = direct
  translator_lem full_speed full_speed = direct
  translator_lem full_speed high_speed = direct
  translator_lem low_speed low_speed = direct
  translator_lem low_speed full_speed = direct
  translator_lem low_speed high_speed = direct

  -- What a port's changes call for: a reset of a device that was connected, unless another one is
  -- being enumerated; the detach of a device that is gone; the attach of a device after its reset.
  abbrev pub expected :
      (enumerating connection is_connected reset still_in_reset : Bool) → UsbSpeed → Option HubEvent
  expected enumerating true false reset still_in_reset speed =
      some (device_detach (new_port hub.handle.address port))
  expected false true true reset still_in_reset speed = some device_reset
  expected enumerating connection is_connected true false speed = some (
      device_attach (record {
        port = new_port (bit_or 0x80 hub.handle.address) port;
        transaction_translator = translating hub.handle.parent.speed speed;
        speed = speed;
      }))
  expected enumerating connection is_connected reset still_in_reset speed = none

  -- CLEAR_FEATURE and SET_FEATURE for a port, with the number of the feature.
  abbrev pub clearing : (feature : ℕ) → Request
  clearing feature = command_request 0x23 1 feature port

  abbrev pub setting : (feature : ℕ) → Request
  setting feature = command_request 0x23 3 feature port

  -- The requests to the hub: the change of the connection (16) or of the reset (20) is cleared, and a
  -- device that was connected has its port reset (4).
  abbrev pub commands : (enumerating connection is_connected reset : Bool) → List Request
  commands enumerating true false reset = clearing 16 ∷ []
  commands false true true reset = clearing 16 ∷ setting 4 ∷ []
  commands enumerating connection is_connected true = clearing 20 ∷ []
  commands enumerating connection is_connected false = []

  module _ (lo : 0 < hub.handle.address) (hi : hub.handle.address < 128) (x1 y1 x2 y2 : List ℕ)
      (rs : List Reply) (cs : List Call) where
    abbrev answering : Bus
    answering = record {
      replies = answered x1 ∷ answered y1 ∷ answered x2 ∷ answered y2 ∷ rs;
      calls = cs;
    }

    -- The bus after at most two requests, each of which took two answers.
    abbrev pub commanded : List Request → Bus
    commanded [] = answering
    commanded (r ∷ []) = record {
      replies = answered x2 ∷ answered y2 ∷ rs;
      calls = command_calls hub.handle r cs;
    }
    commanded (r ∷ q ∷ more) = record {
      replies = rs;
      calls = command_calls hub.handle q (command_calls hub.handle r cs);
    }

    -- The handler of a port returns the event, after the requests.
    abbrev pub Leads :
        (enumerating connection is_connected reset still_in_reset : Bool) → UsbSpeed → Type 0
    Leads enumerating connection is_connected reset still_in_reset speed =
        on_port hub port enumerating connection is_connected reset still_in_reset speed answering
        ≡ (
          returned (expected enumerating connection is_connected reset still_in_reset speed),
          commanded (commands enumerating connection is_connected reset),
        )

    -- The arm of the end of a reset.
    reset_ends :
        (still_in_reset : Bool) (speed : UsbSpeed)
        → on_reset hub port still_in_reset speed answering ≡ (
          returned (expected true false false true still_in_reset speed),
          commanded (clearing 20 ∷ []),
        )
    unfolding clear_feature feature_code request_code set_data_direction set_recipient set_type
        direction_code type_code recipient_code
    reset_ends true s = rw (clears change_reset x1 y1 (answered x2 ∷ answered y2 ∷ rs) cs) refl
    reset_ends false s =
        rw
          (
            clears change_reset x1 y1 (answered x2 ∷ answered y2 ∷ rs) cs,
            translator_lem hub.handle.parent.speed s,
            new_device_lem hub.handle.address port (translating hub.handle.parent.speed s) s lo hi,
          )
          refl

    -- On a hub behind no translator, with an address of 1 to 127, that answers, the handler of a port
    -- returns the event that the changes of the port call for: a reset, a detach, the attach of a
    -- device, with the hub as its translator exactly where the hub is of high speed and the device is
    -- not, or none. Before, it clears the change that it handles, and it asks for a reset of the port
    -- exactly where it returns a reset; it sends no other request.
    pub on_port-Leads :
        (enumerating connection is_connected reset still_in_reset : Bool) (speed : UsbSpeed)
        → Leads enumerating connection is_connected reset still_in_reset speed
    unfolding clear_feature set_feature feature_code request_code set_data_direction set_recipient
        set_type direction_code type_code recipient_code
    on_port-Leads e true false r i s =
        rw (clears change_connection x1 y1 (answered x2 ∷ answered y2 ∷ rs) cs) refl
    on_port-Leads false true true r i s =
        rw
          (
            clears change_connection x1 y1 (answered x2 ∷ answered y2 ∷ rs) cs,
            sets port_reset x2 y2 rs (command_calls hub.handle (clearing 16) cs),
          )
          refl
    on_port-Leads true true true true false s = reset_ends false s
    on_port-Leads true true true true true s = reset_ends true s
    on_port-Leads true true true false i s = refl
    on_port-Leads e false c true false s = reset_ends false s
    on_port-Leads e false c true true s = reset_ends true s
    on_port-Leads e false c false i s = refl

    -- The event of a device that is gone, and what is freed for it.
    abbrev pub Leaks : (B : BitArray) → DeviceAddressManager → Type 0
    Leaks B m =
        (p : PortInfo) × ((enumerating reset still_in_reset : Bool) (speed : UsbSpeed)
          → (on_port hub port enumerating true false reset still_in_reset speed answering).0
            ≡ returned (some (device_detach p)))
        × (free_subtree B m p ≡ ok (m, B.zeros))

    -- On a hub behind no translator, with an address of 1 to 127, that answers, the event of a device
    -- that is gone from a port above 0 names a port for which `free_subtree` frees nothing and returns
    -- the empty mask, on every table that is a tree: the address stays taken.
    pub detach-Leaks :
        (B : BitArray) (m : DeviceAddressManager) → IsTree m.info → 0 < port → Leaks B m
    detach-Leaks B m tree pos = (
      new_port hub.handle.address port,
      λ e r i s. ap (λ q. q.0) (on_port-Leads e true false r i s),
      free_subtree_flagless B m hub.handle.address port tree hi pos,
    )
