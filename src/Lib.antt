-- ===== src/Lib.antt =====
-- Models of src/HW_models, the hardware models of the nRF52833 for BabbleSim, and what holds of them.
--
-- The program is a set of peripheral models in C. Each keeps its registers and its variables in file
-- scope, sets a timer of its own to the time of its next event, and asks NRF_HW_model_top.c to choose
-- the next timer again. When the time machine has come to that time, nrf_hw_some_timer_reached calls
-- the handler of the chosen timer. Models raise interrupts through irq_ctrl.c, signal events to the
-- PPI, and are driven by the side effects of register writes, one function to a register.
--
-- Soc.State, Soc.Pins, Soc.Routing, Soc.Phy, Soc.Air and Soc.Crypt have the file-scope variables of the
-- models, and Soc is the record of them all, a field to a model, with the memory behind pointers as a field
-- of bytes: a C function
-- that changes them is a function from Soc to Soc with the C function's name in lower case, and one
-- that works on a single model's variables is a function of that model's record. An array indexed by
-- instance or channel is a function of the index. The time of tm_get_hw_time is the field now, and
-- bs_trace_error_*, which ends the process, sets the field halted and stops the function; warnings
-- leave no trace. Soc.Env has what the models take from elsewhere: the constants of the MDK headers,
-- the board's callbacks, the random numbers, the cipher's library, the addresses of the registers,
-- and the physical layer: a request or an answer to it is a field
-- that gives the message it returns with, and where it fills structures, these. It is an instance
-- argument of what uses it. A model signals an event through its field nrf_ppi_event: Ppi.ppi_env
-- puts the model of NRF_PPI.c there, to a depth of events that raise events; in C that nesting is
-- recursion.
--
--   Common      tests, words of 8 to 64 bits with their modulus written out, counted loops, and the
--               bitwise operations by their bits
--   Soc         the state and the environment
--   Top, Dispatch, Initialize,  NRF_HW_model_top.c: the choice of the next timer, the handlers and the
--   TopLaws                     initialisation
--   Irq, IrqLaws                irq_ctrl.c: the interrupt controller
--   Timer, TimerLaws            NRF_TIMER.c: the timers and counters
--   Rtc, RtcLaws                NRF_RTC.c: the real-time counters
--   Clock, ClockLaws            NRF_CLOCK.c: the clocks, the calibration and its timer
--   Rng, Temp, Ecb              NRF_RNG.c, NRF_TEMP.c and NRF_AES_ECB.c
--   Ccm, Blecrypt, CcmLaws      NRF_AES_CCM.c and BLECrypt_if.c: the encryption of packets
--   Memory                      copies of bytes
--   Egu, EguLaws                NRF_EGU.c: the event generators
--   Aar, AarLaws                NRF_AAR.c: the address resolver
--   Gpio, GpioLaws              NRF_GPIO.c and NRF_GPIO_backend.c: the pins
--   Gpiote, GpioteLaws          NRF_GPIOTE.c: pin events and tasks
--   Ppi, PpiLaws                NRF_PPI.c: which tasks an event triggers, and their queue
--   Radio, RadioLaws            NRF_RADIO.c and NRF_RADIO_priv.h: the radio's state machine, in Radio.Control
--                               (tasks), Radio.Transmit, Radio.Receive, Radio.Cca, Radio.Abort and
--                               Radio.Machine (expiries, reset); NRF_RADIO_signals.c in Radio.Events and
--                               Radio.Signals; NRF_RADIO_bitcounter.c, NRF_RADIO_tasks_regs.c,
--                               NRF_RADIO_timings.c and NRF_RADIO_utils.c (Radio.Packet and Radio.Requests,
--                               with the conversions of times of NRF_HWLowL.c)
--   Nvmc, NvmcLaws              NRF_NVMC.c: the flash and the UICR
--   Ticker                      bstest_ticker.c and fake_timer.c
--   Crc, CrcLaws                crc.c: the checksums of Bluetooth LE and IEEE 802.15.4
--   Examples                    an environment with the constants of the nRF52833, a system at rest, and
--                               runs of each law
--
-- Loops over instances, channels and bytes are counted. The search for the highest priority interrupt
-- has 33 rounds, one more than the bits that __builtin_ffs sees. The loop that moves a compare match
-- past the current time has now + 1 rounds, and a counter's wrap takes a microsecond or more. The loop over
-- the queue of tasks has a round more than the queue has entries: a task that raises an event while it
-- runs finds the queue emptied, or as it was. Times are 64-bit words; a statement says where it wants
-- that no sum wraps.
--
-- The bits per microsecond, a double of 1, 2 or 0.25, are counted in quarters; the bit counter's
-- times, which C adds in double, are exact, the same below 2 ^ 53; the running priority, a C int, is a
-- natural number, as the priorities that it is set to are; levels in dBm are
-- integers at a scale that the environment gives. A configuration of the radio that the C code reports
-- as an error ends the step, as the report ends the process.
--
-- Not modelled: the loading of the cipher's library; the registers of the radio that no function reads;
-- the second answer to the physical layer in abort_if_needed, which has no result; the files of the
-- flash and of the pins (input changes are taken as the lines that sscanf reads, and the contents of
-- the flash as an argument of the initialisation), the FICR, the command line and the clean-up, which
-- are input, output and calls of what is modelled; and the nrfx functions that write a register and
-- call its side effect. The temperature is the initial one, and the factor of a partial erase is 1.
pub mod Common
pub mod Crc
pub mod CrcLaws
pub mod Soc
pub mod Top
pub mod TopLaws
pub mod Irq
pub mod IrqLaws
pub mod Timer
pub mod Rtc
pub mod RtcLaws
pub mod Clock
pub mod ClockLaws
pub mod Rng
pub mod Temp
pub mod Memory
pub mod Blecrypt
pub mod Ccm
pub mod CcmLaws
pub mod Ecb
pub mod Egu
pub mod Aar
pub mod Radio
pub mod Gpio
pub mod Gpiote
pub mod Ppi
pub mod PpiLaws
pub mod Ticker
pub mod Nvmc
pub mod Dispatch
pub mod Initialize
pub mod TimerLaws
pub mod NvmcLaws
pub mod EguLaws
pub mod AarLaws
pub mod RadioLaws
pub mod GpioLaws
pub mod GpioteLaws
pub mod Examples
