-- ===== src/Lib.antt =====
-- A model of async-usb-host, an asynchronous USB host stack, and the proofs about it.
--
-- The host (src/lib.rs) takes the events of the root port from the hardware (src/bus.rs), enumerates the
-- device there and the devices behind hubs, and polls the hubs (src/driver/hub.rs) for new and for lost
-- devices. It talks to a device through a pipe of the hardware (src/pipe.rs), reads its descriptors
-- (src/descriptor) with setup requests (src/request), and gives it an address from a table that is a tree
-- of hubs (src/device_addr.rs). A dispatcher (src/driver/mod.rs) runs the device drivers in a poller that
-- owns their futures in place (src/futures.rs); there is a driver of keyboards (src/driver/kbd.rs) and one
-- that brings a new firmware to a device (src/driver/dfu.rs).
--
-- The files, by the part of the code that they model:
--   Types, Types/Port          src/types.rs: packed ports, device infos, toggles, addresses, packet ids
--   Errors                     src/errors.rs and ParsingError; what a call comes to
--   Address, Address/UnionFind src/device_addr.rs: the address table, and the union-find of
--                              free_subtree; Tree is the invariant, the other children are proofs
--   Descriptor, Descriptor/*   src/descriptor: the parser and its iterator (Format is the wire format,
--                              Parse and Iterate are proofs), the words of a hub, the HID descriptor
--   Request, Request/Laws      src/request/mod.rs: the setup requests and their bits
--   ClassCode                  src/consts.rs: the base classes
--   Futures, Futures/*         src/futures.rs: Poller is StaticUnpinPoller, Select is SelectPin2; Slots,
--                              Polling, Inserting, Ownership and Racing are proofs
--   Pipe, Pipe/*               src/pipe.rs: Bus is async code over the hardware, Split the split
--                              transactions, Transfer the transactions with their retries and timers,
--                              Control the control and interrupt transfers, Addressing the attach and
--                              the detach; the other children are proofs, of which Requests says which
--                              requests the code puts on the bus
--   HubDriver, HubDriver/*     src/driver/hub.rs: the reaction to the changes of the ports of a hub;
--                              Setup is Hub::new and Polling is Hub::poll, with the loop of src/lib.rs
--                              over the hubs; Events, Resets and Quiet are proofs
--   Host, Host/*               src/lib.rs and src/bus.rs: Hubs is the removal of hubs, Enumerate
--                              enumerate_device, Attached the polls of an attached host, and Run the
--                              rounds of run_until_event; HubLists, Removal, Owned,
--                              Enumerating, Resets, Exclusion, Working and Reach are proofs
--   Driver, Driver/*           src/driver: the configuration descriptor and the key codes; Items is the
--                              loop over descriptors, Keyboard src/driver/kbd.rs, Dfu src/driver/dfu.rs,
--                              and Dispatcher src/driver/mod.rs; their children are proofs
--   Prelude, Loops             shared names, lists over native numbers, facts on bytes, for loops
--   External/*                 the interfaces of the crates bitvec and arrayvec
--
-- How code becomes definitions. A byte or a word is a number, and its masks are operations on bits. The
-- code is read as a debug build runs it: a failed assertion, an index out of bounds and an overflow
-- panic. In the pollers, a read or a drop of a cell that holds no live future, which is undefined
-- behaviour in the code, panics too. A future is a state with a poll that is a parameter. Async code in
-- the pipe is a function of the bus: its calls are recorded and each call that waits takes the next reply
-- of a list, which stands for any behaviour of the hardware, the firing of the timer of a transfer
-- included. A list that is used up means that the code waits.
--
-- A round of the host runs on a moment: the replies of the pipe, then the events of the bus. Of a select,
-- the side that is polled first goes as far as the replies go, and then the other side is looked at; what
-- the first side had changed by then, an address that was given included, stays. The states that the host
-- reaches are those after any rounds that come to their end.
--
-- Fuel. A loop of the pipe runs on the number of replies, since each round takes a reply or leaves;
-- Pipe/Loops, Pipe/Ends and Pipe/Completes follow the replies through a control transfer, and
-- Driver/Keyboard/Reports through the loop of a keyboard. The loop over descriptors runs on the length of
-- its buffer and the number of replies; it starves only at a descriptor of the length 0, where the code
-- stays for ever. The removal of hubs runs on their number. The find of the union-find runs on the length
-- of the array, which a chain of parents with rising ranks stays below.
--
-- Not modelled: logging and formatting, with process_keyboard_report, which does nothing else; pinning and
-- wakers; the mutex of the pipe and the channels, whose calls and messages are taken one after the other;
-- the panics of a driver's try_attach inside the dispatcher. The hardware behind the traits Bus and Pipe
-- and the crates bitvec, arrayvec, usb_dfu_target and embassy are not part of the repository.
pub mod Prelude
pub mod Errors
pub mod Loops
pub mod External
pub mod Types
pub mod Address
pub mod Descriptor
pub mod Request
pub mod ClassCode
pub mod Futures
pub mod Pipe
pub mod HubDriver
pub mod Host
pub mod Driver
