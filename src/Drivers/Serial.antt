-- ===== src/Drivers/Serial.antt =====
-- The serial port driver: kernel/src/drivers/serial.rs. The port itself is the crate uart_16550's:
-- its state and operations are parameters. Text is a list of bytes, formatted by the caller.
use compute_kernel.Common.{ℕ, Option, none, some, List, [], ◌∷◌, ◌++◌, Outcome, done, panic}

abbrev pub com1_port : ℕ
com1_port = 0x3f8

-- `SerialPort`: a port at a base address, its `init`, and `write_fmt`, where `none` is an error.
pub record Uart (Port : Type 0) : Type 0 where
  pub new : ℕ → Port
  pub setup : Port → Port
  pub write_fmt : List ℕ → Port → Option Port

module _ {Port : Type 0} (uart : Uart Port) where
  -- The static SERIAL1.
  abbrev pub serial1 : Port
  serial1 = uart.new com1_port

  unfoldable pub init : Port → Port
  init port = uart.setup port

  -- `_serial_print`, which interrupts do not see: a failing write is a panic.
  unfoldable pub serial_print : List ℕ → Port → Outcome Port
  serial_print text port = elim (uart.write_fmt text port) [
    | none ↦ panic
    | some written ↦ done written
  ]

  unfoldable pub serial_println : List ℕ → Port → Outcome Port
  serial_println text port = serial_print (text ++ (10 ∷ [])) port
