-- ===== src/Lib.antt =====
-- desk-control: one controller that knows which computer each monitor of a desk shows and who holds the
-- shared keyboard, and that moves them on request.
--
-- How the program works. Agents run on the computers; each connects to the controller, says which monitors
-- it can reach and how, and reports what it observes of them and of the USB devices. The controller keeps
-- all of it in the desk store (apps/controller/src/desk-store.ts). A request, from a person or from a
-- preset, becomes a command of the command service (apps/controller/src/command-service.ts): the desired
-- state is written, a control path is chosen, the command is sent to the path's agent, and it ends by the
-- agent's result, by a timeout, by the loss of the agent or by a newer command for the same target. The
-- snapshot (apps/controller/src/snapshot.ts) shows desired and observed state side by side, resolved by
-- the rules of packages/domain/src.
--
-- Which file models what.
--   Common             equality tests, lists, maps, signed numbers and text
--   Domain             packages/domain/src: Ids (ids.ts), Capability (capability.ts), Device (device.ts,
--                      naming.ts), Monitor (monitor.ts, layout.ts), State (state.ts), Peripheral
--                      (peripheral.ts), Command (command.ts), Preset (preset.ts), Reconcile (reconcile.ts)
--   Protocol           packages/protocol/src: reports.ts, messages.ts (the hello), errors.ts, version.ts
--   Config             packages/config/src: schema.ts, empty-desk.ts, and Migrate (migrate.ts)
--   Store              desk-store.ts: the record DeskStore has the fields of the class, and each method
--                      is a function of that name from a store to a store. Inventory has the merging of
--                      reports, Observations what agents see, Usb who holds a device, Commands the
--                      retained commands, Agents the agents, Presets the presets, Editing the names,
--                      the wall, the wiring and declared computers
--   Service            command-service.ts: ServiceState is the store, the timers, the messages sent and
--                      the switch commands under way. Monitors, Peripherals and Presets have the
--                      requests, Responses the answers of agents and the timeouts
--   Gateway            agent-gateway.ts (apps/controller/src): the connections of the agents and what they
--                      send, over Service, which uses Gateway.dispatcher_of as its dispatcher. Frames
--                      has the handling of one frame; the messages are in Protocol/Frames
--   Hardware           packages/hardware/src: Gpio (gpio/gpio-peripheral-switch.ts), Ddc/Vcp (ddc/vcp.ts),
--                      Ddc/CapabilitiesRequest (ddc/capabilities-request.ts), Ddc/Features (the meaning of
--                      VCP codes in ddc/capabilities.ts) and Ddc/Provider (ddc/ddc-provider.ts:
--                      setInput; Provider/Power has setPower)
--   Agent              packages/agent-core/src/agent-runtime.ts: the state of the class AgentRuntime. Commands
--                      has the carrying out of commands and the reports, Events the connection and what
--                      happens to it
--   Snapshot           snapshot.ts, with the payload of packages/domain/src/desk.ts
--   Tests              concrete runs on a small desk
-- The other modules (Domain/Monitor/Selection, Domain/Reconcile/Meaning and Headline,
-- Domain/Preset/Planning and Capture, Domain/Command/Targets, Store/Usb/Holders, Store/Inventory/Wall and
-- Cabling, Store/Presets/Identity, Store/Observations/Best, Store/Editing/Wiring,
-- Store/Commands/Evolution, Sorting and Retention, Snapshot/Faithful, and Service/Retiring, Creating,
-- Requests, Steps, Answers, Outcomes, Clicks, Composite and Timers with its children, the children of Gateway but
-- Frames, those of Config/Migrate, and those of Hardware/Gpio, Ddc/Vcp, Ddc/CapabilitiesRequest and
-- Ddc/Provider, and Agent/Links, Connected, Idempotence and Redelivery) hold the theorems on the part they
-- stand in. Service/Steps has every change of the service's state as one step, but for dispose, which ends
-- the service and clears its timers, and Gateway/System those of the gateway and the service together,
-- Agent/Events has AgentStep, every event of the agent.
--
-- How the code is read. A Map, and an object used as one, is an association list in insertion order. null
-- and undefined are the absent option; `truthy` is the test that also refuses the empty text. An ISO
-- timestamp is a number of milliseconds, and an operation reads the clock once. Coordinates of the wall
-- are thousandths of a grid unit. A call of setTimeout is an entry of `scheduled` with a handle; the
-- timeout that fires is a step. The controller is one thread, so an operation is one step, but for the
-- command of a peripheral switch, which awaits the switch: begin_peripheral and finish_peripheral are its
-- two halves, and any steps may lie between them. The dispatcher (isOnline, send), the clock, randomUUID
-- and what slugify takes from Unicode are parameters of Store and Service; the gateway supplies the
-- dispatcher. A connection of the gateway is an object in a heap, under a number. The GPIO pin driver and
-- the exchange with a display are parameters that may fail at any call. A byte is a number, and a buffer a
-- list of bytes. An operation of the agent that awaits is cut where it awaits: what comes after is an
-- event that takes the answer as an argument, and any events may lie between. Two awaits in a row with
-- nothing of the agent read or changed between them, of the two providers in pushObservedState, are one.
--
-- Bounds. Four loops have a bound: the search for a free preset id (the suffixes 2 to 499) and the reading
-- of a capabilities string (128 rounds) have that of the source; the polling of verifySwitch has a round
-- for every millisecond to its deadline, which is enough since each round sleeps (Ddc/Provider/Ending).
-- The migration has a round for each version below the current one. All others are recursions over lists;
-- a number is printed with one round more than its value, which is more than it has digits.
--
-- Not modelled: the sockets themselves, HTTP and start-up (apps/controller/src/server.ts, index.ts), the
-- transport and the start-up of the agents (packages/agent-core/src/transport.ts, apps/agent), of
-- packages/hardware the discovery, the observation and setBrightness of the DDC provider (the first is an
-- argument of the other operations; the last computes in floating point), EDID, the parser of the
-- capabilities string, the composite switch, the simulated desk, the drivers and the platform bridges, the
-- files of the configuration (packages/config/src/store.ts), discovery (packages/discovery), the user
-- interface (apps/web), the mock desk, tests and scripts. Listeners and the logger change no state; the
-- store counts how often it calls the former. The zod schemas are read as the types they infer; their
-- checks happen before the modelled code runs.
pub mod Common
pub mod Domain
pub mod Protocol
pub mod Config
pub mod Store
pub mod Service
pub mod Gateway
pub mod Hardware
pub mod Agent
pub mod Snapshot
pub mod Tests
