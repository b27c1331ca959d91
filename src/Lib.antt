-- ===== src/Lib.antt =====
-- Programmer: a tool that writes programs into PIC18F97J60 family microcontrollers over Ethernet.
--
-- A program file is read into an image, the image is turned into erase and write operations, and
-- a bootloader in the device carries them out, asked by UDP datagrams. The repository also has a
-- simulated device, which answers the same datagrams. The library follows these parts, each a
-- translation of the source into functions that run, with a comment on the code at the top of
-- each file and what is proved in the child modules.
--
-- Prelude, with Prelude/Tests, Lists, Words and Bits: numbers, Boolean tests, lists, the widths
--   of integers (casts and wrap-around written out), and the masks that align addresses.
-- Exceptions (Programmer/include/Programmer/Exceptions.hpp): what is thrown, and `Result`, a
--   value, an exception or a fault. A fault is what C++ gives no meaning to, such as an access
--   outside an array. Message has the text of an exception, over std::vformat as a parameter.
-- Image (Programmer/src/Image.cpp, Section and Image): the sections of an image, `Section::add`
--   as `add`, both overloads of `Image::process` as `process` and `process_size`. Contents is the
--   set of cells that an image holds, Join what `process` does to it.
-- ImageProgrammer (the class of that name in Programmer/src/Image.cpp): `program` with its loop,
--   as the list of the operations that it makes. Flash is a memory that carries them out; Ready,
--   View, Copy, Bytes, Order, Correct and Safety are about what the operations come to.
-- Hex (Programmer/src/Hex.cpp): the reader of Intel HEX files, a client of any image by the
--   interface `ImageInterface`. Record has its enumerations, Codec the records of one line, Lines
--   the files that records print, Total any file.
-- Elf (Programmer/src/Elf.cpp, with the structs of Programmer/include/Programmer/elf.h in Structs
--   and its numbers in Constants): the constructor of class Elf as `construct`, and the two readers
--   of an image. Names has the functions that print names, Print `Elf::print` as the calls of
--   printf that it makes. Constructed is about the constructor, Loads and Sections about the images
--   of a file, Printed about what is printed; Encoding writes a file, Tables and Encoded read it
--   back.
-- Protocol (Programmer/include/Programmer/protocol.hpp, and the byte orders of Network.hpp): the
--   frames as bytes, with Op, Status and Header for the enumerations and the header, Fields for the
--   laws of reading and writing them.
-- DeviceDescriptor (Programmer/src/DeviceDescriptor.cpp): the table of the devices, with their
--   ids in Ids and Table for its laws.
-- Network (Programmer/include/Programmer/Network.hpp and src/Network.cpp): the address of a peer,
--   and in Socket the classes of sockets, over the calls of Winsock as a parameter.
-- Target (Programmer/src/Target.cpp): the simulated device, one `step` for each datagram and
--   `run` for the loop of `Target::start`, with the names that it prints in Names. Safety, Reads and Total are about the operations and a
--   step, Memory about the flash as a memory, Access about its senders, Runs about the loop.
-- Programmer (class Programmer and class IProgrammerStrategy, Programmer/src/Programmer.cpp): a
--   client of any strategy by the record `ProgrammerStrategy`, with Guards for what reaches it.
-- NetworkProgrammer (the class of that name in Programmer/src/Programmer.cpp): the strategy that
--   talks to a device, with Buffer, Session and Process for its buffers, the exchange of frames and
--   `process`, and Verdict, Communicate, Answered, Refused, Requests and Frames for what is proved
--   of a call. Keeps has what any invariant needs to survive a call, EveryMethod carries it to all
--   methods, and Methods, Wire and Broadcast are the invariants: the transmit buffer, the datagrams
--   that are sent and the mode of the socket. Its methods are functions from the object's state to
--   the state after them and a result; the datagrams that arrive and the ends of the waiting times
--   are a list of events, which the methods consume in order.
-- TargetTester (class TargetNetworkTester of Programmer/src/TargetTester.cpp): the tester of the
--   device's network stack, whose loops run over what arrives. Wire has the registers of a
--   response, Payload the bytes that are sent, Loops the loops of `test`, Timer
--   class Timer over the calls of the system;
--   Echo, Sends, Delivery, Accounts and Turns are about the payloads, `send`, the search of a
--   request, `received` and the loops of `test`.
-- ProtoTester (class TargetProtoTester of Programmer/src/TargetTester.cpp, and `main` of
--   Programmer/src/Main.cpp, which runs it): the tests of the bootloader protocol, as calls of the
--   network programmer; Expected is about all of them, Judged about one against the device.
-- System: NetworkProgrammer and Target together, each call of the one a round of the other, with
--   a memory as their specification. Asks and Replies are the frames between them, Serves and
--   Declines the device's side, Linked, Exchanges and Refusals a call, Discovered and Connects the
--   connection, Refines a session of calls and Opened one behind a connection. Filled and Writes
--   are about a write, which the two disagree about; Requests has a specification of sessions with
--   writes, Followed is about the system and it.
-- Pipeline: a file, an Image and an ImageProgrammer together, as the last blocks of `main` in
--   Programmer/src/Main.cpp use them. Blocks and Touched are about blocks that are put into an
--   image, Files about HEX and ELF files. These blocks stand under `if (0)`.
-- Tests: runs of the definitions, and the theorems at concrete inputs.
--
-- Widths and bounds: a size_t has 64 bits and the host is little-endian, as on the Windows builds
-- of the repository. The layout of the structs that are not packed is written out where an offset
-- depends on it. The loops are structural recursion over the lists that they walk; `communicate`
-- is recursion over its three rounds and over the events, and a list of events that ends stands
-- for a network that stays silent. The loop of `program` over a section has one round of fuel
-- more than the section has bytes: each round takes a byte at least.
--
-- Not modelled: the branches of Main.cpp that are not compiled, the structs and numbers of elf.h
-- that no code uses, `print_size` and output to the terminal, apart from `Elf::print`. The tester
-- of the network stack does not read its timer: its check decides what is printed, and is taken
-- to succeed; in the source it throws std::system_error when the wait fails. The parts that use
-- sockets take the network as events in place of the classes of Socket: sends and socket options
-- succeed, and a datagram longer than the buffer makes a receive fail. Time is an event, the
-- random numbers of the tester are any stream. std::format is not run: a message keeps its format
-- and its arguments.
pub mod Prelude
pub mod Exceptions
pub mod Image
pub mod ImageProgrammer
pub mod Hex
pub mod Elf
pub mod Protocol
pub mod DeviceDescriptor
pub mod Network
pub mod Programmer
pub mod Target
pub mod NetworkProgrammer
pub mod TargetTester
pub mod ProtoTester
pub mod System
pub mod Pipeline
pub mod Tests
