-- ===== src/Lib.antt =====
-- The modem subsystem: a library of modules that talk to a modem over byte streams. A pipe
-- (subsys/modem/modem_pipe.c) is the interface through which the modules exchange bytes; the
-- multiplexer (subsys/modem/modem_cmux.c) carries several channels over one pipe, each of them a pipe
-- itself; the PPP module (subsys/modem/modem_ppp.c) sends and receives network packets over a pipe; the
-- chat module (subsys/modem/modem_chat.c) runs scripts of requests and responses over a pipe; the
-- cellular driver (drivers/modem/modem_cellular.c) brings a modem up with all of them. The pipe at the
-- bottom is a backend, such as the UART with interrupts (subsys/modem/backends).
--
-- The files, with the code that they are about:
--   Base, Base/Tests, Base/Lists, Base/Bits: numbers, tests, lists, and masks and shifts of bytes.
--   Base/Zephyr, Base/Net: what the sources call of Zephyr, as records of operations with the laws that
--     its documentation states: ring buffers, checksums, network packets.
--   Cmux: the data of include/zephyr/modem/cmux.h. The state of the receive state machine is a record
--     of its own, `Receiver`, within `Cmux`.
--   Cmux/Transmit: modem_cmux_transmit_frame, _cmd_frame and _data_frame; below it, what stands on the
--     wire.
--   Cmux/Receive: modem_cmux_process_received_byte, one function for each state, and
--     modem_cmux_receive_handler; below it, what the state machine makes of the octets of a frame.
--   Cmux/Control: modem_cmux_on_frame and all that it calls; below it, data for a channel and commands.
--   Cmux/Channel: modem_cmux_dlci_init, the pipe of a channel, and its work handlers.
--   Cmux/Work: connecting, disconnecting, attaching and releasing a multiplexer, and its work handlers;
--     below it, the octets that go through the transmit buffer.
--   Cmux/Life: all calls and all octets in any order, as a relation of steps, and what holds after them.
--   Ppp: the data of include/zephyr/modem/ppp.h.
--   Ppp/Packets: the ring of packets that wait, modem_ppp_tx_net_pkt_buf_put and _get.
--   Ppp/Wrap: modem_ppp_wrap_net_pkt_byte, one function for each kind of state.
--   Ppp/Unwrap: modem_ppp_process_received_byte.
--   Ppp/Handlers: modem_ppp_send_handler, modem_ppp_process_handler, modem_ppp_ppp_api_send,
--     modem_ppp_attach and modem_ppp_release; below it, what they put out, queue and give back.
--   Ppp/RoundTrip: both ends of a link.
--   Pipe: all of modem_pipe.c; below it, the mutex and the answers.
--   Base/Gives: what holds of the value of a computation that may have none.
--   Chat: the data of include/zephyr/modem/chat.h. The fields of the line parser are a record of their
--     own, `Parser`, within `Chat`.
--   Chat/Engine: starting, advancing and stopping a script; Chat/Send: sending a step's request; below
--     it, what is left to send.
--   Chat/Parse: modem_chat_process_byte and all that it calls; below it, what the parser writes.
--   Chat/Line: a line without the receive buffer, as a match and fields; below it, how the parser comes
--     to the same, byte by byte.
--   Chat/Api: init, attach, run, abort and release; Chat/Work: the work items.
--   Chat/Sound: the states of a chat from which every work item has a next state.
--   Chat/Late: a script that stops before the end of a line.
--   Cellular: the data of drivers/modem/modem_cellular.c.
--   Cellular/Texts: the callbacks of its chat; Cellular/Scripts: its matches, scripts and chat.
--   Cellular/Machine: entering, leaving and handling events in each state; below it, the diagram of the
--     states, and the carrier, the timer and the callbacks of the channels in each of them.
--   Cellular/Queue: the queue of events and the callbacks that fill it; below it, its order.
--   Uart: the interrupt driven UART backend, subsys/modem/backends/modem_backend_uart_isr.c; below it,
--     what interrupts bring, what a read takes, and what is sent. An interrupt comes between two of the accesses of
--     modem_backend_uart_isr_receive; modem_backend_uart_isr_transmit runs without one.
--   UartAsync: the asynchronous UART backend, subsys/modem/backends/modem_backend_uart_async.c; below it,
--     the receive buffers that the driver holds, and a transmission that does not start. Each event of
--     the driver comes between two calls of the backend's functions.
--   Tests: the models on concrete inputs.
--
-- How code becomes definitions: a function that changes a structure takes its record and gives the
-- changed record, with its result if it has one. A function that can read or write outside an object
-- gives an Option, and `none` is such an access. A call of the kernel, of the application or of another
-- module is an entry of the record's `calls`, latest first. Octets and the other unsigned integers are
-- natural numbers, with the remainder that the C type leaves written out where a value can exceed it.
--
-- Bounds: the loop of modem_ppp_tx_net_pkt_buf_put is recursion on a number of rounds, the size of the
-- ring, after which the loop has come back to the tail and stops. The loop that fills the transmit
-- buffer of a PPP link takes as many rounds as the buffer has room, since each round takes one octet of
-- it; the loop of modem_ppp_release takes at most one round for each slot of the ring.
--
-- Not modelled: the mutexes but that of a pipe, since each function runs whole; logging; the
-- initialisation of devices and interfaces; modem_backend_uart_init, which chooses a UART backend; the
-- TTY backend, the samples and the tests. A callback does not call the module that calls it. The results
-- of the other modules are arguments of the cellular driver, which is not composed with them.
pub mod Base
pub mod Cmux
pub mod Ppp
pub mod Pipe
pub mod Chat
pub mod Cellular
pub mod Uart
pub mod UartAsync
mod Tests
