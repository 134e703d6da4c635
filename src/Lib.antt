-- ===== src/Lib.antt =====
-- A verification library for lgx2userspace, the userspace driver of the LiveGamer X capture cards.
--
-- The program reads the card's stream over USB and turns it into video frames and audio packets:
--
--   CaptureStream -> CapturePipeline: BufferReorderer -> FrameBuilder -> video
--                                                                   \-> AudioGate -> audio
--
-- and polls the HDMI receiver (StatusMonitor, SignalStatus) for the input state that the pipeline
-- mutes and blanks by. Each part is a module here, with a function for each of its operations:
--
--   AudioGate        src/liblgx/src/AudioGate.cpp: `update`, `process`
--   CaptureStream    src/liblgx/liblgx-usb/src/usb/CaptureStream.cpp: the ring (`enqueue_chunk`,
--                    `mark_gap`, `deliver`, `discard`), and in Transfers the pool (the two callbacks,
--                    `start`, `stop`)
--   FrameBuilder     src/liblgx/src/FrameBuilder.cpp: `processMarker` in Marker, `feed` in Feed
--   BufferReorderer  src/liblgx/src/BufferReorderer.cpp: `scan` in Scan, `emit` and `feed` in Emit
--   CapturePipeline  src/liblgx/src/CapturePipeline.cpp: `feed`, `set_input_state`, `tick`
--   SignalStatus     src/liblgx/src/SignalStatus.cpp: `decode`, `same_status`; in Poll the loop of
--                    src/liblgx/liblgx-usb/src/usb/StatusMonitor.cpp
--   StatusMonitor    the rest of that file: `read_adv_status`, `probe_once`, `start`, `stop`
--   CommandBridge    src/liblgx/liblgx-usb/src/usb/CommandBridge.cpp: `i2c_read`, `i2c_write`,
--                    `crypto_read_config`, `drain_responses`, and in Replay `replay`
--   Bootstrapper     src/liblgx/liblgx-usb/src/usb/Bootstrapper.cpp: `bootstrap` and its parts
--   DeviceSession    src/liblgx/liblgx-usb/src/usb/DeviceSession.cpp: the constructor `open_session`,
--                    `bootstrap`, `start`, `deliver`, `discard`, `stop`
--   CaptureDaemon    src/lgx2d/CaptureDaemon.cpp: `queue_event`, `handle_event`, `serve`, `destroy`
--   UsbContext       src/liblgx/liblgx-usb/src/usb/UsbContext.cpp: `usable`, `find_devices`
--   UsbStream        src/liblgx/liblgx-usb/src/usb/UsbStream.cpp: `device_available`,
--                    `stream_setup_commands`, `update`, `shutdown_stream`
--   PipeWireAudioOutput, SdlVideoOutput
--                    src/liblgx/liblgx-pipewire/src/pw/PipeWireAudioOutput.cpp, its ring;
--                    src/liblgx/liblgx-sdl/src/sdl/SdlVideoOutput.cpp, the scaling of a frame
--   V4LCaptureSource src/liblgx/liblgx-linux/src/v4l/V4LCaptureSource.cpp: `open_source`, `release`,
--                    `read_frame`
--   NoSignalCard     src/liblgx/src/NoSignalCard.cpp: `render`, `card_frame`
--   Usb              libusb as a parameter, and the laws of a board that answers; Toy is one
--
-- The command bridge reads and writes the registers of the board. The bootstrapper and the status
-- monitor use it, a session owns all of them with the stream, and the daemon, or the stream of the
-- viewer, owns the session.
--
-- The state of a class is a record with its fields, an operation a function on it; what is done under a
-- mutex is one step, so that each round of `deliver` is one, with the event thread's calls between
-- them. What a callback or an output is called with is a list in the state. Bytes
-- and offsets are ℕ; counters keep their wrap-around, and the reorderer's total of bytes its 64 bits.
-- The sums that look ahead of that total by at most two buffer pairs are not wrapped.
--
-- Loops run on fuel: `n + 1` rounds in the FrameBuilder, which moves on in every round; the distance
-- to the limit in the BufferReorderer's scan, and the observed SAVs and the bytes before the limit in
-- its emit, where each round takes one of them. The theorems on the loops show that it is enough. The
-- drain of the command bridge needs one round more than replies wait; the theorems that use it ask for
-- that.
--
-- What is known of the board is in the laws of Usb: reads answer, and only the registers that the
-- bootstrap sets itself keep what is written. Numbers in recorded commands are `int`s as `std::stoi`
-- reads them; it throws on larger ones. The bootstrap's theorems are about the LGX2. The buffers that
-- V4LCaptureSource maps are counted, not told apart.
--
-- Not modelled: libusb, SDL, PipeWire and V4L (their answers are parameters), the recorded commands, the
-- command line and the main programs, the V4L and libao outputs, the screen that SDL draws without a
-- signal, log text, and `describe` and `refreshHz`, which are printf and floating point.
pub mod Prelude
pub mod AudioGate
pub mod CaptureStream
pub mod FrameBuilder
pub mod BufferReorderer
pub mod CapturePipeline
pub mod SignalStatus
pub mod Bootstrapper
pub mod CaptureDaemon
pub mod CommandBridge
pub mod DeviceSession
pub mod NoSignalCard
pub mod PipeWireAudioOutput
pub mod SdlVideoOutput
pub mod StatusMonitor
pub mod Usb
pub mod UsbContext
pub mod UsbStream
pub mod V4LCaptureSource
