-- ===== src/Lib.antt =====
-- p44utils: main loop timers, operation queues, tag-length-value format, text functions, the source
-- cursor and the processor of the script language, and digital inputs and outputs.
--
-- The program is a C++ library of building blocks for event driven daemons. Seven parts of it are
-- modelled here.
--
-- The main loop (mainloop.cpp, mainloop.hpp) keeps a list of timers in the order of their execution
-- times, hands out a ticket number for each, and runs the handlers of those that are due.
--   Timers/Defs          record MlTimer is class MLTimer, record MainLoop the members mTimers,
--                        mTimersChanged, mTicketNo, mTerminated, mExitCode and mMaxCoalescing; one
--                        function per operation: schedule_timer (scheduleTimer), execute_once_at
--                        (executeOnceAt), cancel_execution_ticket, reschedule_execution_ticket_at,
--                        ticket_cancel (MLTicket::cancel), execute_ticket_once_at, check_timers.
--   Timers/Retrigger     retriggerTimer, in its four modes.
--   Timers/Order, Timers/Tickets, Timers/Loop, Timers/TicketObject
--                        the list by order and by ticket number.
--   Timers/Handlers, Timers/Rounds, Timers/Check
--                        what handlers may do, the rounds of checkTimers, and checkTimers.
--   Timers/Runs          runs at concrete inputs.
-- The clock and the handlers are parameters (record Env). Times are natural numbers: no time,
-- interval or tolerance is negative, and sums stay below 2 ^ 63. The ticket counter is not wrapped.
-- The loops of checkTimers stand on fuel: two rounds for each reading of the clock until the time
-- limit of the call has passed are enough, since a round that runs a timer reads the clock.
--
-- The operation queue (operationqueue.cpp, operationqueue.hpp) initiates operations, waits for them
-- to complete or to time out, and calls their completion callbacks.
--   Operations/Defs      class Operation and the parts of OperationQueue that act on one operation.
--   Operations/Processing
--                        processOneOperation, by the parts of its loop, and processOperations.
--   Operations/Sequence, Operations/Abort, Operations/Ends, Operations/Counts, Operations/Once
--                        operations in sequence, abortion, how many operations are left, and the
--                        calls of completion callbacks.
--   Operations/Runs      runs at a concrete input.
-- Its clock, the virtual hasCompleted and initiate, and the completion callbacks are parameters (record
-- Surroundings); the main loop's timers, which call it again and again, stay outside.
--
-- The serial operation queue (serialqueue.cpp, serialqueue.hpp) is an operation queue whose operations
-- send and receive bytes.
--   Serial/Operation     classes SerialOperationSend and SerialOperationReceive.
--   Serial/Queue         SerialOperationQueue::acceptBytes, by the parts of its loop; the virtual
--                        acceptBytes, the handler for extra bytes and processOperations are parameters.
--   Serial/Delivery, Serial/Acceptance
--                        which operation gets which bytes.
--   Serial/Runs          a run at a concrete input.
-- Its loops stand on fuel: a round takes at least one byte, so as many rounds as bytes are enough.
--
-- Digital inputs and outputs (digitalio.cpp, digitalio.hpp, iopin.cpp) sit on simulated pins.
--   Io/Digital           classes SimPin and DigitalIo.
--   Io/Bus, Io/BusValue  class DigitalIoBus.
--   Io/Indicator, Io/Blinking
--                        class IndicatorOutput, whose timer the main loop calls; it is set anew with
--                        retrigger_at of Timers/Retrigger.
--   Io/Button            class ButtonInput; what its handler is called with is the result.
--   Io/Runs              runs at concrete inputs.
-- A share of the time that is on is at most 100 percent.
--
-- The tag-length-value format (tlv.cpp, tlv.hpp) writes and reads documents of numbers, strings,
-- blobs, IDs and nested containers.
--   Tlv/Tags, Tlv/Writer class TLVWriter: a writer and the one nested in it are a leaf or nested
--                        state; an assert that fails is none.
--   Tlv/Reader, Tlv/Read class TLVReader: positions in the bytes; what an argument is filled with is
--                        answered in an Option. A read behind the end of the bytes gives 0. The loops
--                        of nextDataTag and seekNext stand on fuel that the length of the bytes
--                        bounds.
--   Tlv/Document         documents as trees, the bytes of a tree, and the calls that write it.
--   Tlv/ReadBack         the calls that read a document.
--   Tlv/Ints, Tlv/SignedInts, Tlv/Element, Tlv/Writing, Tlv/WriteRefines
--                        the writer against the bytes of the tree.
--   Tlv/Reading, Tlv/Steps, Tlv/Containers, Tlv/Ready, Tlv/RoundTrip, Tlv/DataTag,
--   Tlv/NextIs, Tlv/SeekNext
--                        the reader on those bytes, and on any.
--   Tlv/Runs             runs at concrete inputs.
-- A size_t and a uint64_t are 64 bits wide; positions are not wrapped. Where the code reads a
-- variable that is not initialised, its value is an argument.
--
-- The text functions (utils.cpp, utils.hpp) are used by all parts. Bytes of a text are numbers, and a
-- text that ends with a 0 is the list of the bytes before it.
--   Text/Chars           the character functions of the C library, in the "C" locale.
--   Text/Shape           case, white space, abbreviation and texts on one line.
--   Text/Quote           shellQuote and cstringQuote; whether a char is signed is a parameter.
--   Text/Lines, Text/Csv nextLine, nextPart, keyAndValue and nextCSVField: what is left of the text is
--                        the cursor.
--   Text/Hex             hexadecimal texts, MAC addresses and GTIN check digits.
--   Text/Shell, Text/Bounds, Text/CsvRoundTrip, Text/LineSplit, Text/HexRoundTrip, Text/Gtin
--                        what the functions answer, and how it is read back.
--   Text/Runs            runs at concrete inputs.
--
-- The script language (p44script.cpp, p44script.hpp) reads its source with a cursor.
--   Script/Cursor        classes SourcePos and SourceCursor: moves, white space, comments, identifiers.
--   Script/Operators, Script/Literals
--                        parseOperator and parseStringLiteral; sscanf is a parameter.
--   Script/Walk, Script/Ends, Script/AtCode, Script/Comments, Script/NonCode
--                        how the cursor moves, what it passes and where it stops.
--   Script/Spellings     the operators by the way they are written.
--   Script/StringChars, Script/StringRoundTrip
--                        string literals that cstringQuote wrote.
--   Script/Runs          runs at concrete inputs.
-- The loops of the cursor stand on fuel: as many rounds as characters are left are enough.
-- Its scripts are run by a state machine.
--   Script/Processor     class SourceProcessor: State has its members (record Processor, record
--                        StackFrame), Stack completion, errors, push and pop, Terms, Members,
--                        Assignment and Expression one function per handler of expressions
--                        (simple_term is s_simpleTerm), Step the loop of start, step and stepLoop.
--   Script/Processor/Statements
--                        the handlers of statements: Process and Jumps have processStatement, by
--                        its parts, s_noStatement and s_declarations, Definitions processVarDefs,
--                        Conditions if, else, try and catch, Loops for and while, Foreach foreach,
--                        Keywords the words and what is asked of values.
--   Script/Processor/Tree, Script/Processor/Parentheses
--                        expression trees, their values and their texts.
--   Script/Processor/Reading to Script/Processor/Expressions
--                        how the state machine reads the text of a tree, part by part.
--   Script/Processor/Catching, Script/Processor/Leaving, Script/Processor/Branches
--                        which frame of the stack catches an error, which break and continue find,
--                        and which branches of if and else run.
--   Script/Processor/WhileRounds, Script/Processor/WhileLoops
--                        while loops against a loop on what is outside of the processor.
--   Script/Processor/Runs, Script/Processor/StatementRuns, Script/Processor/LoopRuns
--                        runs at concrete inputs.
-- The values (record Values), numeric literals, the lookup of members, the execution of calls,
-- iterators, and the handlers of object and array literals, threads, function and event handler
-- definitions and includes are parameters of the processor (record Hooks); a call that resumes later
-- goes on at once. Its loop stands on fuel, and for the text of a tree there is a number of rounds
-- from which on it is enough. The line of setCaught, which marks a shared error object, gives a new
-- value here. Where the code would ask a result that is null for its Boolean, the answer is false.
--
-- Prelude has the names, tests and list lemmas that the parts share. Not modelled: the child
-- processes, I/O polling and run loop of the main loop, and the other parts of the library, which
-- call the operating system and other libraries, drive hardware, or are large parts of their own.

pub mod Prelude
pub mod Timers
pub mod Tlv
pub mod Operations
pub mod Text
pub mod Script
pub mod Io
pub mod Serial
